-- ===== src/Dma/Geometry.antt =====
-- Where the buffers of a pool lie in its mapping: the header's size and the mapping's length.
pub mod Crossing
use native.Mathlib.Nat.{
  pow-suc, one-le-pow, pow-le-pow_right, mod-eq_of_lt, mod-lt, div-add-mod', div-div-eq-div-mul,
  add-mul-mod_self_right, le-div_iff_mul-le, mul-add-div_right, div-eq_of_lt, mul-mod_left,
  mul_comm, mul-le-mul_left,
}
use native.Mathlib.Decide.{dec_le}
use target_syslibs.Base.{
  ℕ, zero, suc, ◌+◌, ◌-◌, ◌*◌, ◌/◌, ◌%◌, ◌^◌, ◌≤◌, ◌<◌, ◌≡◌, ◌≢◌, ◌⊎◌, inl, inr, refl, ap, sym, ◌∙◌,
  arith, dec_lt, lt→ltb, le→not-ltb, ltb, Bool, true, false,
}
use target_syslibs.Base.Bits.{mod-double}
use target_syslibs.Base.Words.{add64, mul64, sign_extend, u32}
use target_syslibs.Dma.Align.{
  huge_page_size, pool_hdr_size, conv_to_next_aligned, align_to_bf_page_size,
}
use target_syslibs.Dma.Align.Laws.{
  IsNextMultiple, conv_to_next_aligned_pow, align_to_bf_page_size-IsNextMultiple,
}
use target_syslibs.Dma.Create.{header_for}

-- Buffers of `size` bytes, `cnt` of them, as the checks of the function leave them.
pub record IsRequest (size cnt : ℕ) : Type 0 where
  pub small : size ≤ huge_page_size
  pub count : cnt < 2 ^ 31

module _ {size cnt : ℕ} (req : IsRequest size cnt) where
  total-lt : size * cnt < 2 ^ 53
  total-lt = grind (arith, req.small, req.count)

  -- The product in the code does not wrap.
  mul64-total : mul64 size (sign_extend cnt) ≡ size * cnt
  mul64-total = rw (lt→ltb cnt (2 ^ 31) req.count) (mod-eq_of_lt (omega (arith, total-lt)))

  -- If everything fits one huge page, the buffers follow the 4 KB of the header.
  pub header_for-one :
      size * cnt + pool_hdr_size ≤ huge_page_size → header_for size cnt ≡ pool_hdr_size
  unfolding header_for
  header_for-one h = rw (below h)
    where
      below :
          size * cnt + pool_hdr_size ≤ huge_page_size
          → ltb huge_page_size (add64 (mul64 size (sign_extend cnt)) pool_hdr_size) ≡ false
      below k = le→not-ltb _ _ (omega (arith, mul64-total))

  -- Otherwise they start at the size, rounded up to 4 KB.
  pub header_for-many :
      huge_page_size < size * cnt + pool_hdr_size
      → IsNextMultiple pool_hdr_size size (header_for size cnt)
  unfolding header_for
  header_for-many h =
      rw (above, word) (conv_to_next_aligned_pow size 12 (omega arith) (omega (arith, req.small)))
    where
      above : ltb huge_page_size (add64 (mul64 size (sign_extend cnt)) pool_hdr_size) ≡ true
      above = lt→ltb _ _ (omega (arith, mul64-total, total-lt))

      word : u32 size ≡ size
      word = omega (arith, req.small)

  -- The header is a positive multiple of 4 KB, and no buffer is larger than it if there are many.
  pub header_for_bounds :
      (0 < header_for size cnt)
      × (header_for size cnt % pool_hdr_size ≡ 0)
      × (header_for size cnt ≤ huge_page_size)
  header_for_bounds = elim (dec_lt huge_page_size (size * cnt + pool_hdr_size)) [
    | yes many ↦
        let n = header_for-many many in
        (omega (arith, n.above, positive many), n.aligned, n.least huge_page_size refl req.small)
    | no one ↦ rw (header_for-one (omega arith)) (omega arith)
  ]
    where
      positive : huge_page_size < size * cnt + pool_hdr_size → 0 < size
      positive many = grind arith

  -- The length of the mapping.
  abbrev mapping_len : ℕ
  mapping_len = align_to_bf_page_size (add64 (mul64 size (sign_extend cnt)) (header_for size cnt))

  -- The mapping is a positive number of huge pages and holds the header and all buffers.
  pub mapping_len_bounds :
      (header_for size cnt + size * cnt ≤ mapping_len)
      × (mapping_len % huge_page_size ≡ 0)
      × (0 < mapping_len)
      × (mapping_len < 2 ^ 54)
  mapping_len_bounds = (
    omega (arith, next.above, sum),
    next.aligned,
    omega (arith, next.above, sum, header_for_bounds),
    omega (arith, next.least (2 ^ 54 - huge_page_size) refl (omega (arith, sum, sum-lt)), sum),
  )
    where
      sum-lt : size * cnt + header_for size cnt < 2 ^ 54 - 2 * huge_page_size
      sum-lt = omega (arith, total-lt, header_for_bounds)

      sum :
          add64 (mul64 size (sign_extend cnt)) (header_for size cnt)
          ≡ size * cnt + header_for size cnt
      sum =
          ap (λ (t : ℕ). add64 t (header_for size cnt)) mul64-total
          ∙ mod-eq_of_lt (omega (arith, sum-lt))

      next :
          IsNextMultiple huge_page_size
            (add64 (mul64 size (sign_extend cnt)) (header_for size cnt))
            mapping_len
      next = align_to_bf_page_size-IsNextMultiple _ (omega (arith, sum, sum-lt))
