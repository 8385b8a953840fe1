-- ===== src/Dma/Tests/Pools.antt =====
-- The theorems on making and destroying pools at a concrete system.
use target_syslibs.Base.{
  get_elem?, ℕ, ◌+◌, ◌*◌, ◌≤◌, ◌≡◌, refl, inr, none, some, [], ◌∷◌, ◌⊎◌, arith,
}
use target_syslibs.Base.Outcome.{done, faulted}
use target_syslibs.Dma.Align.{huge_page_size, conv_to_next_aligned, align_to_bf_page_size}
use target_syslibs.Dma.Pool.{Pool}
use target_syslibs.Dma.Buffers.Fresh.{fresh-buffer_index}
use target_syslibs.Dma.Address.{bf_sys_dma_buffer_index, bf_mem_virt2phy}
use target_syslibs.Dma.Machine.{Machine}
use target_syslibs.Dma.Create.{Args, header_for, bf_sys_dma_pool_create}
use target_syslibs.Dma.Create.Post.{Created}
use target_syslibs.Dma.Create.Checks.{AlignedTo, bf_sys_dma_pool_create_lem}
use target_syslibs.Dma.Create.Total.{
  IsAccepted, bf_sys_dma_pool_create-some, bf_sys_dma_pool_create-faulted,
}
use target_syslibs.Dma.Destroy.{bf_sys_dma_pool_destroy}
use target_syslibs.Dma.Destroy.RoundTrip.{unregistered, registered, bf_sys_dma_pool_destroy-create}
use target_syslibs.Dma.Buffers.{Alloc}
use target_syslibs.Dma.Gate.{init}
use target_syslibs.Dma.Gate.Alone.{shared}
use target_syslibs.Dma.Gate.Run.{Run, run}
use target_syslibs.Dma.Sharing.{buffers_apart}
use target_syslibs.Dma.Single.{bf_sys_dma_buffer_alloc, bf_sys_dma_buffer_free}
use target_syslibs.Dma.Single.Whole.{single, buffer_free-alloc}
use target_syslibs.Dma.Toy.{toy, poor, with_bus, toy-IsLawful, with_bus-IsLawful, poor-IsLawful}
use target_syslibs.Dma.Tests.{empty, blank, pool_of, machine_of}

-- Four buffers of 1500 bytes, at multiples of 64.
abbrev packets : Args
packets = record {
  pool_name = 114 ∷ 120 ∷ [];
  hndl = 1;
  dev_id = 1;
  subdev_id = 2;
  size = 1500;
  cnt = 4;
  align = 64;
}

abbrev made : Pool
made = pool_of (bf_sys_dma_pool_create toy packets empty) blank

bufs_are : made.pool_buf_ptr ≡ 2101248 ∷ 2102784 ∷ 2104320 ∷ 2105856 ∷ []
unfolding bf_sys_dma_pool_create
bufs_are = refl

abbrev after : Machine
after = machine_of (bf_sys_dma_pool_create toy packets empty) empty

bf_sys_dma_pool_create_lem_example :
    Created none packets 1536 empty made after × AlignedTo packets 1536
unfolding bf_sys_dma_pool_create
bf_sys_dma_pool_create_lem_example =
    bf_sys_dma_pool_create_lem toy-IsLawful packets empty (omega arith) (omega arith)

packets-IsAccepted : IsAccepted packets
packets-IsAccepted = record {
  handle = omega arith;
  align_ok = inr (6, omega arith, refl);
  size_small = omega arith;
}

bf_sys_dma_pool_create-some_example :
    (p : Pool) × (m' : Machine) × (bf_sys_dma_pool_create toy packets empty ≡ done (some p, m'))
    × Created none packets 1536 empty p m'
    × AlignedTo packets 1536
    × (p.base_phy_addr ≡ bf_mem_virt2phy toy.pagemap p.buf_start)
unfolding conv_to_next_aligned align_to_bf_page_size header_for bf_mem_virt2phy
bf_sys_dma_pool_create-some_example =
    bf_sys_dma_pool_create-some toy-IsLawful packets 1 2 2097152 4194308 empty packets-IsAccepted
      (omega arith) refl refl refl refl refl (omega arith)

bf_sys_dma_pool_create-faulted_example : bf_sys_dma_pool_create poor packets empty ≡ faulted
unfolding align_to_bf_page_size conv_to_next_aligned header_for
bf_sys_dma_pool_create-faulted_example =
    bf_sys_dma_pool_create-faulted poor-IsLawful packets 1 2 2097152 0 empty packets-IsAccepted
      (omega arith) refl refl refl refl

-- The same pool on a machine where another device has the same bus address already.
abbrev on_bus : Machine
on_bus = record empty { bus = record { dev_id = 0; subdev_id = 2; dma_addr = 4297129984 } ∷ [] }

abbrev bus_made : Pool
bus_made = pool_of (bf_sys_dma_pool_create with_bus packets on_bus) blank

abbrev bus_after : Machine
bus_after = machine_of (bf_sys_dma_pool_create with_bus packets on_bus) on_bus

bus_is : bus_after.bus ≡ record { dev_id = 1; subdev_id = 2; dma_addr = 4297129984 } ∷ on_bus.bus
unfolding bf_sys_dma_pool_create
bus_is = refl

bus_made-Created : Created with_bus.map_fn packets 1536 on_bus bus_made bus_after
unfolding bf_sys_dma_pool_create
bus_made-Created =
    (bf_sys_dma_pool_create_lem with_bus-IsLawful packets on_bus (omega arith) (omega arith)).0

-- Two of the buffers are out.
bf_sys_dma_pool_destroy-create_example :
    bf_sys_dma_pool_destroy with_bus (record bus_made { pool_buf_offset = 2 }) bus_after
    ≡ done (tt, record bus_after { regions = []; heap = []; bus = on_bus.bus })
bf_sys_dma_pool_destroy-create_example =
    bf_sys_dma_pool_destroy-create with_bus bus_made-Created (omega arith)
      (registered _ _ refl refl (λ dev_id subdev_id d. refl)) bus_made.pool_buf_ptr 2
      bus_made.pool_gate

fresh-buffer_index_example :
    (v : ℕ) × (get_elem? bus_made.pool_buf_ptr 1 ≡ some v)
    × (bf_sys_dma_buffer_index bus_made (v + 1535) ≡ done 1)
fresh-buffer_index_example =
    fresh-buffer_index bus_made-Created (omega arith) (omega arith) 1 1535 (omega arith)
      (omega arith)

-- Each of two threads has taken a buffer of the pool.
abbrev both_served : Run 2 made.buf_cnt made.pool_buf_ptr
both_served =
    run 2 made.buf_cnt made.pool_buf_ptr
      (0 ∷ 0 ∷ 0 ∷ 0 ∷ 0 ∷ 0 ∷ 0 ∷ 1 ∷ 1 ∷ 1 ∷ 1 ∷ 1 ∷ 1 ∷ 1 ∷ [])

buffers_apart_example :
    (shared made ≡ (init made.buf_cnt made.pool_buf_ptr).mem)
    × (base : ℕ) × (after.regions
        ≡ record { base = base; len = made.num_huge_pages * huge_page_size } ∷ empty.regions)
    × (base + made.pool_hdr_offset ≤ 2101248)
    × (2101248 + made.buf_size ≤ base + made.num_huge_pages * huge_page_size)
    × (((◌≡◌ {A = ℕ} 0 1) × (◌≡◌ {A = ℕ} 2101248 2102784))
        ⊎ ((2101248 + made.buf_size ≤ 2102784) ⊎ (2102784 + made.buf_size ≤ 2101248)))
unfolding bf_sys_dma_pool_create run
buffers_apart_example =
    buffers_apart toy-IsLawful packets empty after made (omega arith) (omega arith) refl
      (omega arith) both_served.reach 0 1 2101248 2102784 (omega arith) (omega arith) (omega arith)
      (omega arith)

-- One buffer of 1000 bytes.
abbrev one_buffer : Args
one_buffer = single (98 ∷ []) 1 0 0 1000

abbrev one_made : Pool
one_made = pool_of (bf_sys_dma_pool_create toy one_buffer empty) blank

abbrev one_after : Machine
one_after = machine_of (bf_sys_dma_pool_create toy one_buffer empty) empty

buffer_free-alloc_example :
    ((q : Pool) × (r : Alloc) × (bf_sys_dma_buffer_alloc toy (98 ∷ []) 1 0 0 1000 empty
        ≡ done (some (q, r), one_after))
      × (bf_sys_dma_buffer_free toy q r.v_addr one_after
          ≡ done (tt, record one_after { regions = []; heap = []; bus = [] })))
    ⊎ (bf_sys_dma_buffer_alloc toy (98 ∷ []) 1 0 0 1000 empty
        ≡ done (none, record one_after { regions = []; heap = []; bus = [] }))
unfolding bf_sys_dma_pool_create
buffer_free-alloc_example =
    buffer_free-alloc (98 ∷ []) 1 0 0 1000 (omega arith) (omega arith) (omega arith) toy-IsLawful
      (unregistered refl refl) empty one_after one_made refl
