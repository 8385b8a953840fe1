-- ===== src/Dma/Buffers/Client.antt =====
-- `bf_sys_dma_alloc` and `bf_sys_dma_free` on a pool in good order: what the caller gets, and that
-- giving a buffer back undoes taking it.
use target_syslibs.Base.{
  ℕ, suc, ◌+◌, ◌-◌, ◌*◌, ◌/◌, ◌%◌, ◌≤◌, ◌<◌, ◌^◌, ◌≡◌, refl, sym, ap, ◌∙◌, true, false, none, some,
  ◌∷◌, get_elem?, drop, drop_of_get_elem?, set, arith, not, ne→not-==, ◌==◌, set-get_elem?, le→leb,
}
use target_syslibs.Base.Outcome.{Outcome, done, ◌>>=◌}
use target_syslibs.Base.Words.{add64}
use target_syslibs.Dma.Align.{huge_page_size}
use target_syslibs.Dma.Pool.{HugePage, Pool, invalid_phy_addr, invalid_dma_addr}
use target_syslibs.Dma.Queue.{pop_free_buf, push_free_buf}
use target_syslibs.Dma.Queue.Stack.{IsValid, free_bufs}
use target_syslibs.Dma.Address.Pages.{IsTabled, get_phy_addr-add64}
use target_syslibs.Dma.Buffers.{Alloc, bf_sys_dma_alloc, bf_sys_dma_free}

-- The pool after the next buffer is taken.
abbrev pub taken : Pool → Pool
taken p = record p { pool_gate = 0; pool_buf_offset = p.pool_buf_offset + 1 }

pop-some :
    (p : Pool) (b : ℕ)
    → IsValid p
    → p.pool_buf_offset < p.buf_cnt
    → get_elem? p.pool_buf_ptr p.pool_buf_offset ≡ some b
    → pop_free_buf p ≡ done (some b, taken p)
unfolding pop_free_buf
pop-some p b v more e = ground arith

pop-none : (p : Pool) → IsValid p → p.buf_cnt ≤ p.pool_buf_offset → pop_free_buf p ≡ done (none, p)
unfolding pop_free_buf
pop-none p v out = ground arith

push-taken :
    (p : Pool) (b : ℕ)
    → IsValid p
    → p.pool_buf_offset < p.buf_cnt
    → push_free_buf (taken p) b
      ≡ done
          (true, record p { pool_gate = 0; pool_buf_ptr = set p.pool_buf_ptr p.pool_buf_offset b })
unfolding push_free_buf
push-taken p b v more = ground arith

taken-IsTabled : (p : Pool) (base : ℕ) → IsTabled p base → IsTabled (taken p) base
taken-IsTabled p base t = record {
  inited = t.inited;
  starts = t.starts;
  positive = t.positive;
  in_memory = t.in_memory;
  table = t.table;
  few = t.few;
  consecutive = t.consecutive;
}

-- On a valid pool with no buffer free and for a size of at most a buffer, `bf_sys_dma_alloc` gives -1
-- and two addresses 0, and the pool is as before.
alloc-empty :
    (p : Pool) (size : ℕ)
    → IsValid p
    → size ≤ p.buf_size
    → p.buf_cnt ≤ p.pool_buf_offset
    → bf_sys_dma_alloc p size ≡ done (record { success = false; v_addr = 0; phys_addr = 0 }, p)
unfolding bf_sys_dma_alloc
alloc-empty p size v fits out = rw (pop-none p v out) (ground arith)

-- A buffer that starts `off` bytes into the mapping is the next one to be handed out.
module _ {p : Pool} {base : ℕ} (v : IsValid p) (tb : IsTabled p base) (off size : ℕ)
    (home : HugePage) (here : get_elem? p.huge_page_info (off / huge_page_size) ≡ some home)
    (inside : off < p.num_huge_pages * huge_page_size) (more : p.pool_buf_offset < p.buf_cnt)
    (next : get_elem? p.pool_buf_ptr p.pool_buf_offset ≡ some (base + off))
    (fits : size ≤ p.buf_size) where
  -- The address that is looked up after the buffer is taken.
  pub alloc-add64 :
      bf_sys_dma_alloc p size
      ≡ done (
        record {
          success = not (add64 home.base_dma_addr (off % huge_page_size) == invalid_phy_addr);
          v_addr = base + off;
          phys_addr = add64 home.base_dma_addr (off % huge_page_size);
        },
        taken p,
      )
  unfolding bf_sys_dma_alloc
  alloc-add64 =
      rw
        (
          pop-some p (base + off) v more next,
          le→leb size p.buf_size fits,
          get_phy_addr-add64 (taken-IsTabled p base tb) off inside home here,
        )
        refl

  -- Giving the buffer back restores the pool.
  pub give_back : bf_sys_dma_free (taken p) (base + off) ≡ done p
  unfolding bf_sys_dma_free
  give_back =
      rw
        (
          ne→not-== (base + off) 0 (omega (arith, tb.positive)),
          push-taken p (base + off) v more,
          set-get_elem? p.pool_buf_ptr p.pool_buf_offset (base + off) next,
        )
        (ap (λ g. done (record p { pool_gate = g })) (sym v.open_gate))

  -- On a valid pool in which a buffer is free, whose table covers its mapping, and whose next free
  -- buffer begins in the mapping, `bf_sys_dma_alloc` of at most a buffer's size returns, and
  -- `bf_sys_dma_free` of the virtual address that it gives restores the pool, whether the call
  -- succeeded or not and whatever the bus addresses are.
  pub free-alloc :
      (bf_sys_dma_alloc p size >>= λ (got, left). bf_sys_dma_free left got.v_addr) ≡ done p
  free-alloc =
      ap (λ (o : Outcome (Alloc × Pool)). o >>= λ r. bf_sys_dma_free r.1 r.0.v_addr) alloc-add64
      ∙ give_back

  -- If the huge page of the next free buffer has the invalid bus address in the table and the buffer
  -- does not begin at the page, `bf_sys_dma_alloc` succeeds, with a physical address that is the offset
  -- in the page less 1.
  alloc-unmapped :
      home.base_dma_addr ≡ invalid_dma_addr
      → 0 < off % huge_page_size
      → bf_sys_dma_alloc p size
        ≡ done (
          record { success = true; v_addr = base + off; phys_addr = off % huge_page_size - 1 },
          taken p,
        )
  alloc-unmapped lost pos =
      alloc-add64
      ∙ rw (wrapped, ne→not-== (off % huge_page_size - 1) invalid_phy_addr (omega arith))
    where
      wrapped : add64 home.base_dma_addr (off % huge_page_size) ≡ off % huge_page_size - 1
      wrapped = omega arith

  -- If the bus address of the next free buffer comes out as the invalid one, `bf_sys_dma_alloc` gives
  -- -1 and the buffer is not among the free ones any more.
  alloc-lost :
      add64 home.base_dma_addr (off % huge_page_size) ≡ invalid_phy_addr
      → (bf_sys_dma_alloc p size
          ≡ done (
            record { success = false; v_addr = base + off; phys_addr = invalid_phy_addr },
            taken p,
          ))
        × (free_bufs p ≡ (base + off) ∷ free_bufs (taken p))
  alloc-lost lost = (
    alloc-add64 ∙ rw (lost),
    drop_of_get_elem? p.pool_buf_ptr p.pool_buf_offset (base + off) next
        ∙ ap (λ (n : ℕ). (base + off) ∷ drop n p.pool_buf_ptr) {x = suc p.pool_buf_offset}
            (omega arith),
  )

module _ {p : Pool} {base : ℕ} (v : IsValid p) (tb : IsTabled p base) (off size : ℕ)
    (home : HugePage) (here : get_elem? p.huge_page_info (off / huge_page_size) ≡ some home)
    (inside : off < p.num_huge_pages * huge_page_size) (more : p.pool_buf_offset < p.buf_cnt)
    (next : get_elem? p.pool_buf_ptr p.pool_buf_offset ≡ some (base + off))
    (fits : size ≤ p.buf_size) (fit : home.base_dma_addr + huge_page_size < 2 ^ 64) where
  -- On a valid pool in which a buffer is free, whose table covers its mapping, whose next free
  -- buffer begins in the mapping, and where the bus addresses of the page that the next buffer
  -- begins in do not wrap, `bf_sys_dma_alloc` of at most a buffer's size succeeds and gives the next
  -- buffer with its bus address.
  pub alloc-some :
      bf_sys_dma_alloc p size
      ≡ done (
        record {
          success = true;
          v_addr = base + off;
          phys_addr = home.base_dma_addr + off % huge_page_size;
        },
        taken p,
      )
  alloc-some =
      alloc-add64 v tb off size home here inside more next fits
      ∙ rw (
        sum,
        ne→not-== (home.base_dma_addr + off % huge_page_size) invalid_phy_addr (omega (arith, fit)),
      )
    where
      sum :
          add64 home.base_dma_addr (off % huge_page_size)
          ≡ home.base_dma_addr + off % huge_page_size
      sum = omega (arith, fit)
