-- ===== src/Dma/Geometry/Crossing.antt =====
-- Whether a buffer of a pool crosses from one huge page into the next.
use native.Mathlib.Nat.{
  one-le-pow, mod-lt, div-add-mod', div-div-eq-div-mul, add-mul-mod_self_right, le-div_iff_mul-le,
  mul-add-div_right, div-eq_of_lt, mul_comm,
}
use native.Mathlib.Decide.{dec_le}
use target_syslibs.Base.{
  ℕ, zero, suc, ◌+◌, ◌-◌, ◌*◌, ◌/◌, ◌%◌, ◌^◌, ◌≤◌, ◌<◌, ◌≡◌, ◌≢◌, refl, ap, sym, ◌∙◌, arith, dec_lt,
}
use target_syslibs.Base.Bits.{pow-le, pow-mod}
use target_syslibs.Dma.Align.{huge_page_size, pool_hdr_size}
use target_syslibs.Dma.Align.Laws.{IsNextMultiple}
use target_syslibs.Dma.Create.{header_for}
use target_syslibs.Dma.Geometry.{IsRequest, header_for-one, header_for-many}

-- All bytes of a buffer at `x` are in one huge page.
abbrev pub InOnePage : ℕ → ℕ → Type 0
InOnePage x size = x / huge_page_size ≡ (x + size - 1) / huge_page_size

mod_self : (x : ℕ) → x % x ≡ 0
mod_self x = grind arith

-- A buffer of `size` bytes that starts at a multiple of `size` stays in one page, if the size
-- divides the page's.
multiple-InOnePage :
    (size x : ℕ) → 0 < size → x % size ≡ 0 → huge_page_size % size ≡ 0 → InOnePage x size
multiple-InOnePage size x pos e d =
    sym (page x) ∙ (ap (λ (t : ℕ). t / r) same ∙ page (x + size - 1))
  where
    r : ℕ
    r = huge_page_size / size

    whole : size * r ≡ huge_page_size
    whole = omega (arith, d, div-add-mod' huge_page_size size, mul_comm size r)

    page : (y : ℕ) → y / size / r ≡ y / huge_page_size
    page y = div-div-eq-div-mul y size r ∙ ap (λ (t : ℕ). y / t) whole

    same : x / size ≡ (x + size - 1) / size
    same = sym (
        ap (λ (t : ℕ). t / size) {y = x / size * size + (size - 1)}
          (omega (arith, e, div-add-mod' x size))
        ∙ (mul-add-div_right pos (x / size) (size - 1)
            ∙ omega (arith, div-eq_of_lt {n = size - 1} {m = size} (omega arith))))

module _ {size cnt : ℕ} (req : IsRequest size cnt) (i : ℕ) (lt : i < cnt) where
  inside-total : i * size + size ≤ size * cnt
  inside-total = grind (arith)

  -- If all fits one huge page, no buffer leaves it.
  one-InOnePage :
      0 < size
      → size * cnt + pool_hdr_size ≤ huge_page_size
      → InOnePage (header_for size cnt + i * size) size
  one-InOnePage pos h = rw (header_for-one req h) (omega (arith, inside-total))

  header-multiple :
      (j : ℕ)
      → size ≡ 2 ^ j
      → huge_page_size < size * cnt + pool_hdr_size
      → header_for size cnt % size ≡ 0
  header-multiple j e many = elim (dec_le j 12) [
    | yes small ↦ omega (
      arith,
      ap (λ (t : ℕ). t % size) (to_header small),
      ap (λ (t : ℕ). 4096 % t) e,
      pow-mod j 12 small,
    )
    | no large ↦ omega (arith, ap (λ (t : ℕ). t % size) (to_size large), mod_self size)
  ]
    where
      next : IsNextMultiple pool_hdr_size size (header_for size cnt)
      next = header_for-many req many

      to_header : j ≤ 12 → header_for size cnt ≡ 4096
      to_header small = omega (
        arith,
        e,
        one-le-pow j 2,
        next.least 4096 refl (omega (arith, e, pow-le j 12 small)),
        next.above,
        next.aligned,
      )

      to_size : ¬ (j ≤ 12) → header_for size cnt ≡ size
      to_size large = omega (
        arith,
        next.above,
        next.least size (ap (λ (t : ℕ). t % 4096) e ∙ pow-mod 12 j (omega arith)) (omega arith),
      )

  page-multiple : (j : ℕ) → size ≡ 2 ^ j → huge_page_size % size ≡ 0
  page-multiple j e = elim (dec_le j 21) [
    | yes small ↦ ap (λ (t : ℕ). huge_page_size % t) e ∙ pow-mod j 21 small
    | no large ↦ absurd (omega (arith, req.small, e, pow-le 22 j (omega arith)))
  ]

  -- In a pool of buffers whose size is a power of two up to a huge page, every buffer lies in one huge
  -- page.
  pub power-InOnePage : (j : ℕ) → size ≡ 2 ^ j → InOnePage (header_for size cnt + i * size) size
  power-InOnePage j e = elim (dec_lt huge_page_size (size * cnt + pool_hdr_size)) [
    | no one ↦ one-InOnePage pos (omega arith)
    | yes many ↦
        multiple-InOnePage size _ pos
          (add-mul-mod_self_right (header_for size cnt) i size ∙ header-multiple j e many)
          (page-multiple j e)
  ]
    where
      pos : 0 < size
      pos = omega (arith, e, one-le-pow j 2)

pred_mul : (k x : ℕ) → 1 ≤ k → x + (k - 1) * x ≡ k * x
pred_mul zero x h = absurd (omega arith)
pred_mul (suc k) x h = omega (arith, ap (λ (t : ℕ). t * x) {x = suc k - 1} {y = k} (omega arith))

-- If the buffers' size is a multiple of 4 KB that does not divide a huge page, and they fill more than
-- a huge page, then the pool has a buffer that crosses from the first huge page into the second.
uneven-crosses :
    {size cnt : ℕ}
    → IsRequest size cnt
    → size % pool_hdr_size ≡ 0
    → huge_page_size % size ≢ 0
    → huge_page_size / size ≤ cnt
    → huge_page_size < size * cnt + pool_hdr_size
    → 0 < size
    → (huge_page_size / size - 1 < cnt)
      × ¬ InOnePage (header_for size cnt + (huge_page_size / size - 1) * size) size
uneven-crosses {size} {cnt} req whole uneven enough many pos =
    (omega (arith, some_fit), λ e. absurd (omega (arith, e, start, low, high)))
  where
    q : ℕ
    q = huge_page_size / size

    next : IsNextMultiple pool_hdr_size size (header_for size cnt)
    next = header_for-many req many

    header : header_for size cnt ≡ size
    header = omega (arith, next.above, next.least size whole (omega arith))

    some_fit : 1 ≤ q
    some_fit = (le-div_iff_mul-le pos).1 (omega (arith, req.small))

    start : header_for size cnt + (q - 1) * size ≡ q * size
    start = omega (arith, header, pred_mul q size some_fit)

    low : q * size < huge_page_size
    low = omega (arith, div-add-mod' huge_page_size size)

    high : huge_page_size < q * size + size
    high = omega (arith, div-add-mod' huge_page_size size, mod-lt huge_page_size pos, uneven)
