-- ===== src/Dma/Create/Checks.antt =====
-- The checks of the arguments, and with them the whole function.
use native.Mathlib.Decide.{dec_le}
use mathlib.Core.Path.{ap₂, subst}
use target_syslibs.Base.{
  ℕ, ◌+◌, ◌-◌, ◌^◌, ◌≤◌, ◌<◌, ◌≡◌, ◌⊎◌, inl, inr, refl, ap, sym, ◌∙◌, Bool, true, false, not,
  Option, none, some, if◌then◌else◌, ◌==◌, leb, ltb, bit_and, dec_lt, arith,
}
use target_syslibs.Base.Words.{u32}
use target_syslibs.Base.Bits.{bit_and_pred, pow-le, pow-mod}
use target_syslibs.Dma.Align.{huge_page_size, pool_hdr_size, conv_to_next_aligned}
use target_syslibs.Dma.Align.Laws.{
  IsNextMultiple, conv_to_next_aligned_pow, conv_to_next_aligned-zero,
}
use target_syslibs.Dma.Pool.{Pool}
use target_syslibs.Dma.Machine.{MapFn, Machine, System, ◌>>◌, pure, check}
use target_syslibs.Dma.Machine.Lawful.{IsLawful}
use target_syslibs.Dma.Machine.Laws.{Ends, Ends-map}
use target_syslibs.Dma.Create.{Args, reserve_pool, bf_sys_dma_pool_create}
use target_syslibs.Dma.Create.Post.{Created, CreateResult}
use target_syslibs.Dma.Create.Whole.{reserve_pool-Ends}

-- The size of a buffer is the requested one, rounded up to the alignment, which is a power of two up
-- to 4096. An alignment of 0 passes the checks as well, and makes the size 0.
abbrev pub AlignedTo : Args → ℕ → Type 0
AlignedTo a size =
    ((a.align ≡ 0) × (size ≡ 0))
    ⊎ ((k : ℕ) × (k ≤ 12) × (a.align ≡ 2 ^ k) × IsNextMultiple (2 ^ k) a.size size)

abbrev pub aligned_size : Args → ℕ
aligned_size a = conv_to_next_aligned (u32 a.size) a.align

abbrev pub PoolResult : Option MapFn → Args → Machine → Option Pool → Machine → Type 0
PoolResult o a m none m' = m' ≡ m
PoolResult o a m (some p) m' = Created o a (aligned_size a) m p m' × AlignedTo a (aligned_size a)

align_pred : (x : ℕ) → 0 < x → x < 2 ^ 32 → u32 (x + 2 ^ 32 - 1) ≡ x - 1
align_pred x pos lt = omega arith

-- What the three checks say of the size.
aligned :
    (a : Args)
    → a.align < 2 ^ 32
    → (bit_and a.align (u32 (a.align + 2 ^ 32 - 1)) == 0) ≡ true
    → leb a.align pool_hdr_size ≡ true
    → ltb huge_page_size a.size ≡ false
    → AlignedTo a (aligned_size a) × (aligned_size a ≤ huge_page_size)
aligned a lt power below small = elim (dec_lt 0 a.align) [
  | no zero_align ↦ none_aligned (omega arith)
  | yes pos ↦ let (k, e) = bit_and_pred a.align pos (bits pos) in power_aligned k e
]
  where
    size_small : a.size ≤ huge_page_size
    size_small = ground arith

    word : u32 a.size ≡ a.size
    word = omega (arith, size_small)

    bits : 0 < a.align → bit_and a.align (a.align - 1) ≡ 0
    bits pos = ap (bit_and a.align) (sym (align_pred a.align pos lt)) ∙ ground arith

    none_aligned : a.align ≡ 0 → AlignedTo a (aligned_size a) × (aligned_size a ≤ huge_page_size)
    none_aligned z =
        let e : aligned_size a ≡ 0 = rw z (conv_to_next_aligned-zero (u32 a.size) (omega arith)) in
        (inl (z, e), omega (arith, e))

    power_aligned :
        (k : ℕ) → a.align ≡ 2 ^ k → AlignedTo a (aligned_size a) × (aligned_size a ≤ huge_page_size)
    power_aligned k e = (
      inr (k, k_small, e, next),
      next.least huge_page_size (pow-mod k 21 (omega (arith, k_small))) size_small,
    )
      where
        k_small : k ≤ 12
        k_small = elim (dec_le k 12) [
          | yes h ↦ h
          | no h ↦ absurd (ground (arith, pow-le 13 k (omega arith)))
        ]

        value : aligned_size a ≡ conv_to_next_aligned a.size (2 ^ k)
        value = ap₂ conv_to_next_aligned word e

        next : IsNextMultiple (2 ^ k) a.size (aligned_size a)
        next =
            subst (λ r. IsNextMultiple (2 ^ k) a.size r) (sym value)
              (conv_to_next_aligned_pow a.size k (omega (arith, k_small))
                (omega (arith, size_small, k_small, pow-le k 12 k_small)))

module _ {s : System} (lawful : IsLawful s) (a : Args) (m : Machine) (int : a.cnt < 2 ^ 32)
    (unsigned : a.align < 2 ^ 32) where
  abbrev is_power : Bool
  is_power = bit_and a.align (u32 (a.align + 2 ^ 32 - 1)) == 0

  with_alignment :
      AlignedTo a (aligned_size a)
      → (made : Option Pool) (m' : Machine) → CreateResult s.map_fn a (aligned_size a) m made m'
      → PoolResult s.map_fn a m made m'
  with_alignment al none m' e = e
  with_alignment al (some p) m' c = (c, al)

  last_check :
      (b : Bool)
      → leb a.align pool_hdr_size ≡ b
      → is_power ≡ true
      → ltb huge_page_size a.size ≡ false
      → Ends (PoolResult s.map_fn a m) ((check b >> reserve_pool s a (aligned_size a)) m)
  last_check false e p l = tt
  last_check true e p l =
      let (al, small) = aligned a unsigned p e l in
      Ends-map (CreateResult s.map_fn a (aligned_size a) m) (PoolResult s.map_fn a m)
        (with_alignment al) (reserve_pool s a (aligned_size a) m)
        (reserve_pool-Ends lawful a (aligned_size a) m small int)

  size_check :
      (b : Bool)
      → ltb huge_page_size a.size ≡ b
      → is_power ≡ true
      → Ends (PoolResult s.map_fn a m) (
          (if b
              then pure none
              else check (leb a.align pool_hdr_size) >> reserve_pool s a (aligned_size a))
            m)
  size_check true e p = refl
  size_check false e p = last_check (leb a.align pool_hdr_size) refl p e

  power_check :
      (b : Bool)
      → is_power ≡ b
      → Ends (PoolResult s.map_fn a m) (
          (if not b
              then pure none
              else if ltb huge_page_size a.size
              then pure none
              else check (leb a.align pool_hdr_size) >> reserve_pool s a (aligned_size a))
            m)
  power_check false e = refl
  power_check true e = size_check (ltb huge_page_size a.size) refl e

  hndl_check :
      (b : Bool)
      → Ends (PoolResult s.map_fn a m) (
          (check b
              >> (if not is_power
                  then pure none
                  else if ltb huge_page_size a.size
                  then pure none
                  else check (leb a.align pool_hdr_size) >> reserve_pool s a (aligned_size a)))
            m)
  hndl_check false = tt
  hndl_check true = power_check is_power refl

  -- On a lawful system, if `bf_sys_dma_pool_create` returns, either it gives a pool of the device
  -- and the subdevice that were given, whose buffers lie in order in a new mapping, all free, or it
  -- gives -1 and the machine is as before. If it gives a pool, then the alignment is a power of two
  -- up to 4096 and the size of the buffers is the requested one rounded up to it, or the alignment
  -- is 0 and so is the size.
  pub bf_sys_dma_pool_create_lem : Ends (PoolResult s.map_fn a m) (bf_sys_dma_pool_create s a m)
  unfolding bf_sys_dma_pool_create
  bf_sys_dma_pool_create_lem = hndl_check (not (a.hndl == 0))
