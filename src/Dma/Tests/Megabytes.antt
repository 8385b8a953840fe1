-- ===== src/Dma/Tests/Megabytes.antt =====
-- Two threads that hold buffers of 1 MB, in different huge pages.
use target_syslibs.Base.{
  ℕ, zero, suc, ◌+◌, ◌^◌, ◌<◌, ◌≤◌, ◌≡◌, ◌⊎◌, refl, inl, some, [], ◌∷◌, get_elem?, arith,
}
use target_syslibs.Dma.Align.{huge_page_size}
use target_syslibs.Dma.Pool.{HugePage, Pool}
use target_syslibs.Dma.Machine.{Machine}
use target_syslibs.Dma.Create.{Args, bf_sys_dma_pool_create}
use target_syslibs.Dma.Address.{bf_sys_dma_get_phy_addr_from_pool}
use target_syslibs.Dma.Address.Pages.{AllApart}
use target_syslibs.Dma.Gate.Run.{Run, run}
use target_syslibs.Dma.Sharing.Bus.{bus_apart}
use target_syslibs.Dma.Toy.{with_bus, with_bus-IsLawful}
use target_syslibs.Dma.Tests.{empty, blank, pool_of, machine_of}

abbrev megabytes : Args
megabytes = record {
  pool_name = 109 ∷ 98 ∷ [];
  hndl = 1;
  dev_id = 0;
  subdev_id = 0;
  size = 1048576;
  cnt = 3;
  align = 4096;
}

abbrev made : Pool
made = pool_of (bf_sys_dma_pool_create with_bus megabytes empty) blank

abbrev after : Machine
after = machine_of (bf_sys_dma_pool_create with_bus megabytes empty) empty

bufs_are : made.pool_buf_ptr ≡ 3145728 ∷ 4194304 ∷ 5242880 ∷ []
unfolding bf_sys_dma_pool_create
bufs_are = refl

abbrev both_served : Run 2 made.buf_cnt made.pool_buf_ptr
both_served =
    run 2 made.buf_cnt made.pool_buf_ptr
      (0 ∷ 0 ∷ 0 ∷ 0 ∷ 0 ∷ 0 ∷ 0 ∷ 1 ∷ 1 ∷ 1 ∷ 1 ∷ 1 ∷ 1 ∷ 1 ∷ [])

pages_fit :
    (k : ℕ) (h : HugePage)
    → get_elem? made.huge_page_info k ≡ some h
    → h.base_dma_addr + huge_page_size < 2 ^ 64
unfolding bf_sys_dma_pool_create
pages_fit zero h e = ground arith
pages_fit (suc zero) h e = ground arith
pages_fit (suc (suc k)) h e = absurd (ground arith)

pages_far : AllApart made.huge_page_info
unfolding bf_sys_dma_pool_create
pages_far zero zero g h e f ne = absurd (ne refl)
pages_far zero (suc zero) g h e f ne = ground arith
pages_far (suc zero) zero g h e f ne = ground arith
pages_far (suc zero) (suc zero) g h e f ne = absurd (ne refl)
pages_far (suc (suc j)) k g h e f ne = absurd (ground arith)
pages_far zero (suc (suc k)) g h e f ne = absurd (ground arith)
pages_far (suc zero) (suc (suc k)) g h e f ne = absurd (ground arith)

bus_apart_example :
    (4298178560 + made.buf_size ≤ 4299227136) ⊎ (4299227136 + made.buf_size ≤ 4298178560)
unfolding bf_sys_dma_pool_create run bf_sys_dma_get_phy_addr_from_pool
bus_apart_example =
    bus_apart with_bus-IsLawful megabytes empty after made (omega arith) (omega arith) refl 20 refl
      (omega arith) pages_fit pages_far both_served.reach 0 1 3145728 4194304 (omega arith)
      (omega arith) (omega arith) (omega arith) (inl (omega arith)) 4298178560 4299227136 refl refl
