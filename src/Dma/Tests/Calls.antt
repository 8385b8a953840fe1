-- ===== src/Dma/Tests/Calls.antt =====
-- The theorems on the free list, the addresses and the buffers at concrete pools.
use target_syslibs.Base.{
  ℕ, zero, suc, ◌+◌, ◌*◌, ◌^◌, ◌<◌, ◌≡◌, refl, none, some, true, false, [], ◌∷◌, inl, inr,
  get_elem?, arith,
}
use target_syslibs.Base.Outcome.{done, ◌>>=◌}
use target_syslibs.Dma.Align.{huge_page_size}
use target_syslibs.Dma.Pool.{HugePage, Pool}
use target_syslibs.Dma.Queue.Stack.{
  IsValid, take, give, serve_stack, taken, given, serve, serve_refines,
}
use target_syslibs.Dma.Address.{bf_mem_dma2virt, bf_sys_dma_get_phy_addr_from_pool}
use target_syslibs.Dma.Address.Pages.{IsMapped, AllApart, dma2virt-get_phy_addr}
use target_syslibs.Dma.Buffers.{bf_sys_dma_alloc, bf_sys_dma_free}
use target_syslibs.Dma.Buffers.Client.{alloc-some, free-alloc}
use target_syslibs.Dma.Tests.{blank}

-- Two of three slots are free.
abbrev half : Pool
half = record blank { buf_cnt = 3; pool_buf_ptr = 100 ∷ 200 ∷ 300 ∷ []; pool_buf_offset = 1 }

serve_refines_example :
    serve half (take ∷ take ∷ take ∷ give 100 ∷ give 200 ∷ give 300 ∷ give 400 ∷ take ∷ [])
    ≡ done (
        taken (some 200)
        ∷ taken (some 300)
        ∷ taken none
        ∷ given true
        ∷ given true
        ∷ given true
        ∷ given false
        ∷ taken (some 300)
        ∷ [])
unfolding serve_stack
serve_refines_example =
    serve_refines (take ∷ take ∷ take ∷ give 100 ∷ give 200 ∷ give 300 ∷ give 400 ∷ take ∷ []) half
      (record { slots = refl; small = omega arith; in_range = omega arith; open_gate = refl })

-- Two huge pages from 2 MB on, whose bus addresses are in the other order.
abbrev two_pages : Pool
two_pages = record blank {
  pool_inited = 1;
  pool_ptr = 2101248;
  buf_start = 2101248;
  buf_cnt = 2;
  buf_size = 1024;
  pool_hdr_offset = 4096;
  pool_buf_ptr = 2101248 ∷ 2102272 ∷ [];
  num_huge_pages = 2;
  huge_page_info =
      record { base_dma_addr = 8388608; base_virt_addr = 2097152 }
      ∷ record { base_dma_addr = 4194304; base_virt_addr = 4194304 }
      ∷ [];
}

two_pages-IsMapped : IsMapped two_pages 2097152
two_pages-IsMapped = record {
  tabled = record {
    inited = omega arith;
    starts = refl;
    positive = omega arith;
    in_memory = omega arith;
    table = refl;
    few = omega arith;
    consecutive = virt;
  };
  fit = fit;
  apart = apart;
}
  where
    virt :
        (k : ℕ) (h : HugePage)
        → get_elem? two_pages.huge_page_info k ≡ some h
        → h.base_virt_addr ≡ 2097152 + k * huge_page_size
    virt zero h e = ground arith
    virt (suc zero) h e = ground arith
    virt (suc (suc k)) h e = ground arith

    fit :
        (k : ℕ) (h : HugePage)
        → get_elem? two_pages.huge_page_info k ≡ some h
        → h.base_dma_addr + huge_page_size < 2 ^ 64
    fit zero h e = ground arith
    fit (suc zero) h e = ground arith
    fit (suc (suc k)) h e = ground arith

    apart : AllApart two_pages.huge_page_info
    apart zero zero g h e f ne = absurd (ne refl)
    apart (suc zero) (suc zero) g h e f ne = absurd (ne refl)
    apart zero (suc zero) g h e f ne = inr (ground arith)
    apart (suc zero) zero g h e f ne = inl (ground arith)
    apart (suc (suc j)) k g h e f ne = ground arith
    apart zero (suc (suc k)) g h e f ne = ground arith
    apart (suc zero) (suc (suc k)) g h e f ne = ground arith

get_phy_addr_at_1000 : bf_sys_dma_get_phy_addr_from_pool two_pages 2098152 ≡ done 8389608
unfolding bf_sys_dma_get_phy_addr_from_pool
get_phy_addr_at_1000 = refl

dma2virt-get_phy_addr_example : bf_mem_dma2virt two_pages 8389608 ≡ done (some 2098152)
dma2virt-get_phy_addr_example =
    dma2virt-get_phy_addr two_pages-IsMapped 1000 (omega arith) _ refl 8389608 get_phy_addr_at_1000

two_pages-IsValid : IsValid two_pages
two_pages-IsValid = record {
  slots = refl;
  small = omega arith;
  in_range = omega arith;
  open_gate = refl;
}

alloc-some_example :
    bf_sys_dma_alloc two_pages 1000
    ≡ done (
      record { success = true; v_addr = 2101248; phys_addr = 8392704 },
      record two_pages { pool_buf_offset = 1 },
    )
alloc-some_example =
    alloc-some two_pages-IsValid two_pages-IsMapped.tabled 4096 1000 _ refl (omega arith)
      (omega arith) refl (omega arith) (omega arith)

free-alloc_example :
    (bf_sys_dma_alloc two_pages 1000 >>= λ (got, left). bf_sys_dma_free left got.v_addr)
    ≡ done two_pages
free-alloc_example =
    free-alloc two_pages-IsValid two_pages-IsMapped.tabled 4096 1000 _ refl (omega arith)
      (omega arith) refl (omega arith)
