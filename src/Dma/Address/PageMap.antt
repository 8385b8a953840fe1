-- ===== src/Dma/Address/PageMap.antt =====
-- The physical address that a page map entry gives.
use native.Mathlib.Nat.{mul-add-mod_self_right, mod-eq_of_lt, mod-lt, mod-mod}
use target_syslibs.Base.{ℕ, ◌+◌, ◌*◌, ◌/◌, ◌%◌, ◌^◌, ◌≤◌, ◌<◌, ◌≡◌, refl, ◌∙◌, true, some, arith}
use target_syslibs.Base.Bits.{bit_and_low_mask}
use target_syslibs.Base.Words.{mul64}
use target_syslibs.Dma.Address.{PageMapFile, bf_mem_virt2phy}

-- Where the page map opens, seeks and reads and the frame ends below 2^64, `bf_mem_virt2phy` gives
-- the frame of the entry's low 55 bits with the offset of the virtual address in its page.
virt2phy_lem :
    (f : PageMapFile) (v page : ℕ)
    → 0 < f.page_size
    → v < 2 ^ 64
    → f.opens ≡ true
    → f.seeks (mul64 8 (v / f.page_size)) ≡ true
    → f.entry (mul64 8 (v / f.page_size)) ≡ some page
    → page % 2 ^ 55 * f.page_size + f.page_size ≤ 2 ^ 64
    → (bf_mem_virt2phy f v ≡ page % 2 ^ 55 * f.page_size + v % f.page_size)
      × (bf_mem_virt2phy f v % f.page_size ≡ v % f.page_size)
unfolding bf_mem_virt2phy
virt2phy_lem f v page pos lt o s e fits = rw computed (refl, offset)
  where
    frame : ℕ
    frame = page % 2 ^ 55 * f.page_size

    computed : bf_mem_virt2phy f v ≡ frame + v % f.page_size
    computed =
        rw (o, s, e, bit_and_low_mask 55 page)
          (omega (
            arith,
            mod-lt v pos,
            mod-eq_of_lt {n = frame} {m = 2 ^ 64} (omega arith),
            mod-eq_of_lt {n = frame + v % f.page_size} {m = 2 ^ 64} (omega (arith, mod-lt v pos)),
          ))

    offset : (frame + v % f.page_size) % f.page_size ≡ v % f.page_size
    offset =
        mul-add-mod_self_right (page % 2 ^ 55) f.page_size (v % f.page_size) ∙ mod-mod v f.page_size
