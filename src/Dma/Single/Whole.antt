-- ===== src/Dma/Single/Whole.antt =====
-- A pool of one buffer from its allocation to its release, and what a failing allocation leaves.
use mathlib.Core.Path.{subst}
use target_syslibs.Base.{
  ℕ, ◌+◌, ◌*◌, ◌/◌, ◌%◌, ◌≤◌, ◌<◌, ◌≡◌, ◌≢◌, ◌⊎◌, inl, inr, refl, ap, ◌∙◌, Bool, true, false, not,
  none, some, List, get_elem?, get_elem?_of_lt, ◌==◌, arith,
}
use target_syslibs.Base.Outcome.{done}
use target_syslibs.Base.Words.{u32, add64}
use target_syslibs.Dma.Align.{huge_page_size}
use target_syslibs.Dma.Align.Laws.{conv_to_next_aligned_pow}
use target_syslibs.Dma.Pool.{HugePage, Pool, invalid_phy_addr}
use target_syslibs.Dma.Machine.{Machine, System, pure}
use target_syslibs.Dma.Machine.Lawful.{IsLawful}
use target_syslibs.Dma.Machine.Laws.{Ends, >>=-step}
use target_syslibs.Dma.Create.{Args, header_for, bf_sys_dma_pool_create}
use target_syslibs.Dma.Create.Post.{Created}
use target_syslibs.Dma.Create.Checks.{aligned_size, PoolResult, bf_sys_dma_pool_create_lem}
use target_syslibs.Dma.Create.Total.{IsAccepted, accepted-small}
use target_syslibs.Dma.Destroy.{bf_sys_dma_pool_destroy}
use target_syslibs.Dma.Destroy.RoundTrip.{IsBalanced, bf_sys_dma_pool_destroy-create}
use target_syslibs.Dma.Address.Pages.{IsTabled}
use target_syslibs.Dma.Buffers.{Alloc, bf_sys_dma_alloc, bf_sys_dma_free}
use target_syslibs.Dma.Buffers.Fresh.{Created-IsTabled}
use target_syslibs.Dma.Buffers.Client.{taken, alloc-add64, give_back}
use target_syslibs.Dma.Single.{buffer_of, bf_sys_dma_buffer_alloc, bf_sys_dma_buffer_free}

-- What `bf_sys_dma_buffer_alloc` asks of pool creation.
abbrev pub single : List ℕ → (hndl dev_id subdev_id size : ℕ) → Args
single pool_name hndl dev_id subdev_id size = record {
  pool_name = pool_name;
  hndl = hndl;
  dev_id = dev_id;
  subdev_id = subdev_id;
  size = size;
  cnt = 1;
  align = 64;
}

module _ (pool_name : List ℕ) (hndl dev_id subdev_id size : ℕ) (handle : hndl ≢ 0) (pos : 0 < size)
    (fits : size ≤ huge_page_size) where
  abbrev args : Args
  args = single pool_name hndl dev_id subdev_id size

  accepted : IsAccepted args
  accepted = record { handle = handle; align_ok = inr (6, omega arith, refl); size_small = fits }

  above : size ≤ aligned_size args
  above = omega (arith, (conv_to_next_aligned_pow (u32 size) 6 (omega arith) (omega arith)).above)

  module _ {s : System} (lawful : IsLawful s) (balanced : IsBalanced s) (m m₁ : Machine) (p : Pool)
      (made : bf_sys_dma_pool_create s args m ≡ done (some p, m₁)) where
    created : Created s.map_fn args (aligned_size args) m p m₁
    created =
        (subst (Ends (PoolResult s.map_fn args m)) made
          (bf_sys_dma_pool_create_lem lawful args m (omega arith) (omega arith))).0

    -- The machine without the pool.
    abbrev restored : Machine
    restored = record m₁ { regions = m.regions; heap = m.heap; bus = m.bus }

    destroyed : bf_sys_dma_pool_destroy s p m₁ ≡ done (tt, restored)
    destroyed =
        bf_sys_dma_pool_destroy-create s created (accepted-small args accepted) balanced
          p.pool_buf_ptr p.pool_buf_offset p.pool_gate

    -- The buffer begins behind the header.
    abbrev off : ℕ
    off = header_for (aligned_size args) 1

    tabled : IsTabled p created.base
    tabled = Created-IsTabled created (accepted-small args accepted) (omega (arith, above))

    inside : off < p.num_huge_pages * huge_page_size
    inside = omega (arith, created.inside, above)

    abbrev Home : Type 0
    Home = (h : HugePage) × (get_elem? p.huge_page_info (off / huge_page_size) ≡ some h)

    home : Home
    home =
        get_elem?_of_lt p.huge_page_info (off / huge_page_size)
          (omega (arith, inside, tabled.table))

    more : p.pool_buf_offset < p.buf_cnt
    more = omega (arith, created.all_free, created.buf_cnt)

    next : get_elem? p.pool_buf_ptr p.pool_buf_offset ≡ some (created.base + off)
    next =
        ap (get_elem? p.pool_buf_ptr) created.all_free
        ∙ created.buffer 0 (omega arith)
        ∙ ap some (omega arith)

    room : size ≤ p.buf_size
    room = omega (arith, above, created.buf_size)

    abbrev found : Alloc
    found = record {
      success = not (add64 home.0.base_dma_addr (off % huge_page_size) == invalid_phy_addr);
      v_addr = created.base + off;
      phys_addr = add64 home.0.base_dma_addr (off % huge_page_size);
    }

    alloced : bf_sys_dma_alloc p size ≡ done (found, taken p)
    alloced = alloc-add64 created.valid tabled off size home.0 home.1 inside more next room

    freed : bf_sys_dma_free (taken p) (created.base + off) ≡ done p
    freed = give_back created.valid tabled off size home.0 home.1 inside more next room

    -- Releasing it.
    released : bf_sys_dma_buffer_free s (taken p) (created.base + off) m₁ ≡ done (tt, restored)
    unfolding bf_sys_dma_buffer_free
    released = rw freed destroyed

    by_pool :
        bf_sys_dma_buffer_alloc s pool_name hndl dev_id subdev_id size m
        ≡ buffer_of s size (some p) m₁
    unfolding bf_sys_dma_buffer_alloc
    by_pool = >>=-step (bf_sys_dma_pool_create s args) (buffer_of s size) m m₁ (some p) made

    ends :
        (ok : Bool)
        → found.success ≡ ok
        → ((q : Pool) × (r : Alloc) × (buffer_of s size (some p) m₁ ≡ done (some (q, r), m₁))
            × (bf_sys_dma_buffer_free s q r.v_addr m₁ ≡ done (tt, restored)))
          ⊎ (buffer_of s size (some p) m₁ ≡ done (none, restored))
    unfolding buffer_of
    ends true e = inl (taken p, found, rw (alloced, e) refl, released)
    ends false e = inr (
        rw (alloced, e)
          (>>=-step (bf_sys_dma_pool_destroy s (taken p)) (λ _. pure none) m₁ restored tt
            destroyed))

    -- On a lawful system where no function for the bus is registered, or both are and unmapping never
    -- fails, for a handle that is not NULL and a size of 1 byte to a huge page: when pool creation
    -- returns a pool, `bf_sys_dma_buffer_alloc` returns 0 with a buffer, and `bf_sys_dma_buffer_free`
    -- of that buffer then leaves the heap, the mappings and the bus as they were before, or it returns
    -- -1 and has itself left them so.
    pub buffer_free-alloc :
        ((q : Pool) × (r : Alloc) × (bf_sys_dma_buffer_alloc s pool_name hndl dev_id subdev_id size
              m
            ≡ done (some (q, r), m₁))
          × (bf_sys_dma_buffer_free s q r.v_addr m₁
              ≡ done (tt, record m₁ { regions = m.regions; heap = m.heap; bus = m.bus })))
        ⊎ (bf_sys_dma_buffer_alloc s pool_name hndl dev_id subdev_id size m
            ≡ done (none, record m₁ { regions = m.regions; heap = m.heap; bus = m.bus }))
    buffer_free-alloc = elim (ends found.success refl) [
      | inl (q, r, e, f) ↦ inl (q, r, by_pool ∙ e, f)
      | inr e ↦ inr (by_pool ∙ e)
    ]
