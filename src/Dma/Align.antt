-- ===== src/Dma/Align.antt =====
-- Rounding up: `conv_to_next_aligned` and `ALIGN_TO_BF_PAGE_SIZE` of bf_sys_dma_hugepages.c, with
-- the constants of bf_sys_dma.h.
pub mod Laws
use target_syslibs.Base.{ℕ, ◌+◌, ◌-◌, ◌*◌, ◌/◌, ◌^◌, bit_and, if◌then◌else◌, ◌==◌}
use target_syslibs.Base.Words.{u32, u64, add64, sub64, mul64}

abbrev pub huge_page_size : ℕ
huge_page_size = 2 * 1024 * 1024

abbrev pub pool_hdr_size : ℕ
pool_hdr_size = 4 * 1024

-- `alignment - 1` and `~(alignment - 1)`, of type `uint32_t`
abbrev pub low_mask : ℕ → ℕ
low_mask alignment = u32 (alignment + 2 ^ 32 - 1)

abbrev pub high_mask : ℕ → ℕ
high_mask alignment = 2 ^ 32 - 1 - low_mask alignment

unfoldable pub conv_to_next_aligned : ℕ → ℕ → ℕ
conv_to_next_aligned val alignment =
    if bit_and val (low_mask alignment) == 0
    then val
    else bit_and (u32 (val + alignment)) (high_mask alignment)

unfoldable pub align_to_bf_page_size : ℕ → ℕ
align_to_bf_page_size x = mul64 (sub64 (add64 x huge_page_size) 1 / huge_page_size) huge_page_size
