-- ===== src/Dma/Align/Laws.antt =====
-- `conv_to_next_aligned` and `ALIGN_TO_BF_PAGE_SIZE` give the least aligned value that is not below.
use native.Mathlib.Nat.{one-le-pow, mod-eq_of_lt, mod-lt, div-add-mod', mul-mod_left, add-mod_right}
use mathlib.Core.Path.{ap₂}
use target_syslibs.Base.{
  ℕ, ◌+◌, ◌-◌, ◌*◌, ◌/◌, ◌%◌, ◌^◌, ◌≤◌, ◌<◌, ◌≡◌, ap, ◌∙◌, arith, bit_and, Bool-cases, ◌==◌, inl,
  inr,
}
use target_syslibs.Base.Bits.{bit_and_low_mask, bit_and_high_mask, bit_and-zero, pow-le}
use target_syslibs.Base.Words.{u32}
use target_syslibs.Dma.Align.{
  huge_page_size, low_mask, high_mask, conv_to_next_aligned, align_to_bf_page_size,
}

-- `r` is the least multiple of `a` that is not below `x`.
pub record IsNextMultiple (a x r : ℕ) : Type 0 where
  pub aligned : r % a ≡ 0
  pub above : x ≤ r
  pub least : (m : ℕ) → m % a ≡ 0 → x ≤ m → r ≤ m

mul-lt_cancel : (a b c : ℕ) → a * c < b * c → a < b
mul-lt_cancel a b c h = grind arith

-- A multiple less than `a` above `x` is the least one.
near-IsNextMultiple : (a x r : ℕ) → r % a ≡ 0 → x ≤ r → r < x + a → IsNextMultiple a x r
near-IsNextMultiple a x r al ab near = record {
  aligned = al;
  above = ab;
  least = λ m e h.
      let quotients : r / a < m / a + 1 =
        mul-lt_cancel (r / a) (m / a + 1) a (omega (arith, div-add-mod' r a, div-add-mod' m a)) in
      grind (arith, div-add-mod' r a, div-add-mod' m a);
}

below-mod : (a x : ℕ) → (x - x % a) % a ≡ 0
below-mod a x =
    ap (λ (t : ℕ). t % a) {x = x - x % a} {y = x / a * a} (omega (arith, div-add-mod' x a))
    ∙ mul-mod_left (x / a) a

low_mask-pow : (k : ℕ) → k < 32 → low_mask (2 ^ k) ≡ 2 ^ k - 1
low_mask-pow k h = omega (arith, pow-le k 31 (omega arith), one-le-pow k 2)

high_mask-pow : (k : ℕ) → k < 32 → high_mask (2 ^ k) ≡ 2 ^ 32 - 2 ^ k
high_mask-pow k h = omega (arith, low_mask-pow k h, pow-le k 31 (omega arith), one-le-pow k 2)

-- For an alignment that is a power of two below 2^32, where the value plus the alignment does not
-- wrap, `conv_to_next_aligned` gives the least multiple of the alignment that is not below the value.
pub conv_to_next_aligned_pow :
    (val k : ℕ)
    → k < 32
    → val + 2 ^ k < 2 ^ 32
    → IsNextMultiple (2 ^ k) val (conv_to_next_aligned val (2 ^ k))
unfolding conv_to_next_aligned
conv_to_next_aligned_pow val k hk hv = elim (Bool-cases (bit_and val (low_mask (2 ^ k)) == 0)) [
  | inl aligned ↦ rw aligned (
      near-IsNextMultiple (2 ^ k) val val (ground (arith, test)) (omega arith)
        (omega (arith, one-le-pow k 2)))
  | inr off ↦
      rw (off, masked)
        (near-IsNextMultiple (2 ^ k) val _ (below-mod (2 ^ k) (val + 2 ^ k))
          (omega (arith, rest, one-le-pow k 2, mod-lt val {m = 2 ^ k}))
          (ground (arith, rest, test)))
]
  where
    test : bit_and val (low_mask (2 ^ k)) ≡ val % 2 ^ k
    test = ap (bit_and val) (low_mask-pow k hk) ∙ bit_and_low_mask k val

    rest : (val + 2 ^ k) % 2 ^ k ≡ val % 2 ^ k
    rest = add-mod_right val (2 ^ k)

    masked : bit_and (u32 (val + 2 ^ k)) (high_mask (2 ^ k)) ≡ val + 2 ^ k - (val + 2 ^ k) % 2 ^ k
    masked =
        ap₂ bit_and (mod-eq_of_lt hv) (high_mask-pow k hk)
        ∙ bit_and_high_mask k 32 (val + 2 ^ k) (omega arith) hv

-- An alignment of 0 clears the value.
pub conv_to_next_aligned-zero : (val : ℕ) → val < 2 ^ 32 → conv_to_next_aligned val 0 ≡ 0
unfolding conv_to_next_aligned
conv_to_next_aligned-zero val h =
    ground (arith, bit_and_low_mask 32 val, bit_and-zero (u32 (val + 0)))

-- Where the value plus a huge page does not wrap, `ALIGN_TO_BF_PAGE_SIZE` gives the least multiple
-- of 2 MB that is not below the value.
pub align_to_bf_page_size-IsNextMultiple :
    (x : ℕ)
    → x + huge_page_size < 2 ^ 64
    → IsNextMultiple huge_page_size x (align_to_bf_page_size x)
unfolding align_to_bf_page_size
align_to_bf_page_size-IsNextMultiple x h =
    near-IsNextMultiple huge_page_size x _ (omega arith) (omega arith) (omega arith)
