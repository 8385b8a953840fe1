-- ===== src/Dma/Create/Runs.antt =====
-- Runs of pool creation where the system gives the two blocks and the mapping: what then decides
-- between success and undefined behaviour.
use native.Mathlib.Nat.{mod-eq_of_lt}
use mathlib.Core.Path.{ap₂}
use target_syslibs.Base.{
  ℕ, ◌+◌, ◌*◌, ◌/◌, ◌<◌, ◌≡◌, ◌≢◌, ap, ◌∙◌, true, false, Option, none, some, List, [], ◌∷◌,
  ne→not-==, arith,
}
use target_syslibs.Base.Outcome.{done, faulted}
use target_syslibs.Base.Words.{add64, sub64, mul64, u32, sign_extend, rounds}
use target_syslibs.Dma.Align.{huge_page_size, align_to_bf_page_size}
use target_syslibs.Dma.Pool.{HugePage, Pool, invalid_phy_addr}
use target_syslibs.Dma.Geometry.{IsRequest, header_for_bounds}
use target_syslibs.Dma.Address.{bf_mem_virt2phy}
use target_syslibs.Dma.Machine.{
  Machine, System, M, ◌>>=◌, pure, is_in, bf_sys_calloc, bf_sys_free, load,
}
use target_syslibs.Dma.Machine.Lawful.{IsLawful}
use target_syslibs.Dma.Machine.Laws.{
  >>=-step, with_block, bf_sys_calloc-some, bf_sys_calloc-none, bf_sys_free-last, bf_sys_free-below,
  bf_sys_free-foreign,
}
use target_syslibs.Dma.Create.{
  Args, header_for, map_pool, reserve_pool, give_up, alloc_huge_pages, log_virt_dma_addr, log_pages,
  log_pool, fill_pool, filled,
}
use target_syslibs.Dma.Create.Steps.{with_region, alloc_huge_pages-first}
use target_syslibs.Dma.Create.Filled.{rounds-int, Placed}
use target_syslibs.Dma.Create.Success.{huge_ptr, pages_num, small_num}
use target_syslibs.Dma.Create.Whole.{placed, stored_len}
use target_syslibs.Dma.Create.Identity.{identity_pages, log_pages-identity}

module _ {s : System} (lawful : IsLawful s) (a : Args) (size self queue_block b : ℕ) (m : Machine)
    (req : IsRequest size a.cnt) (first : s.calloc m 1 s.pool_bytes ≡ some self)
    (second : s.calloc (with_block m self) (sign_extend a.cnt) 8 ≡ some queue_block)
    (mapped : s.mmap
        (with_block (with_block m self) queue_block)
        true
        (align_to_bf_page_size (add64 (mul64 size (sign_extend a.cnt)) (header_for size a.cnt)))
      ≡ some b) where
  self_pos : 0 < self
  self_pos = lawful.block_pos m 1 s.pool_bytes self first

  queue_pos : 0 < queue_block
  queue_pos = lawful.block_pos (with_block m self) (sign_extend a.cnt) 8 queue_block second

  queue_new : is_in queue_block (self ∷ m.heap) ≡ false
  queue_new = lawful.block_new (with_block m self) (sign_extend a.cnt) 8 queue_block second

  -- The two blocks are in the heap.
  abbrev holding : Machine
  holding = with_block (with_block m self) queue_block

  abbrev second_step : ℕ → Option ℕ → M (Option Pool)
  second_step block next = elim next [
    | none ↦ give_up (block ∷ [])
    | some q ↦ map_pool s a size block q
  ]

  abbrev first_step : Option ℕ → M (Option Pool)
  first_step first = elim first [
    | none ↦ pure none
    | some block ↦ bf_sys_calloc s (sign_extend a.cnt) 8 >>= second_step block
  ]

  reserve_pool-map_pool : reserve_pool s a size m ≡ map_pool s a size self queue_block holding
  unfolding reserve_pool
  reserve_pool-map_pool =
      >>=-step (bf_sys_calloc s 1 s.pool_bytes) first_step m (with_block m self) (some self)
        (bf_sys_calloc-some s 1 s.pool_bytes self m first)
      ∙ >>=-step (bf_sys_calloc s (sign_extend a.cnt) 8) (second_step self) (with_block m self)
          holding (some queue_block)
          (bf_sys_calloc-some s (sign_extend a.cnt) 8 queue_block (with_block m self) second)

  abbrev header : ℕ
  header = header_for size a.cnt

  abbrev map_len : ℕ
  map_len = align_to_bf_page_size (add64 (mul64 size (sign_extend a.cnt)) header)

  abbrev num : ℕ
  num = map_len / huge_page_size

  abbrev mapping : Machine
  mapping = with_region holding b map_len

  place : Placed a size self queue_block b num m mapping
  place = placed lawful a size self queue_block m req self_pos queue_pos queue_new b true mapped

  vhuge_sum : add64 b header ≡ b + header
  vhuge_sum =
      mod-eq_of_lt
        (omega (arith, header_for_bounds req, lawful.map_user holding true map_len b mapped))

  -- The buffers start behind the header, and the length is read back from the mapping's first word.
  map_pool-log_pool :
      map_pool s a size self queue_block holding
      ≡ log_pool s a size self queue_block (b + header) header (num * huge_page_size) mapping
  unfolding map_pool
  map_pool-log_pool =
      >>=-step (alloc_huge_pages s (mul64 size (sign_extend a.cnt)) header)
        (λ r. elim r [
          | none ↦ give_up (self ∷ queue_block ∷ [])
          | some v ↦ load (sub64 v header) >>= λ n. log_pool s a size self queue_block v header n
        ])
        holding mapping (some (add64 b header))
        (alloc_huge_pages-first s (mul64 size (sign_extend a.cnt)) header b holding mapped)
      ∙ (ap
            (λ v.
              log_pool s a size self queue_block v header (mapping.word (sub64 v header)) mapping)
            vhuge_sum
          ∙ ap (λ n. log_pool s a size self queue_block (b + header) header n mapping)
              (stored_len lawful a size self queue_block m req self_pos queue_pos queue_new b true
                mapped))

  reserve_pool-log_pool :
      reserve_pool s a size m
      ≡ log_pool s a size self queue_block (b + header) header (num * huge_page_size) mapping
  reserve_pool-log_pool = reserve_pool-map_pool ∙ map_pool-log_pool

  no_block : is_in (b + header) m.heap ≡ false
  no_block = ground (arith, place.no_block)

  -- The mapping is no block of the heap, so an error path that frees it is undefined.
  give_up-faulted :
      (rest : List ℕ) → give_up (self ∷ queue_block ∷ (b + header) ∷ rest) mapping ≡ faulted
  unfolding give_up
  give_up-faulted rest =
      >>=-step (bf_sys_free self) (λ _. give_up (queue_block ∷ (b + header) ∷ rest)) mapping
        (with_block base queue_block) tt
        (bf_sys_free-below self queue_block base self_pos queue_new)
      ∙ (>>=-step (bf_sys_free queue_block) (λ _. give_up ((b + header) ∷ rest))
            (with_block base queue_block) base tt (bf_sys_free-last queue_block base queue_pos)
          ∙ foreign)
    where
      base : Machine
      base = with_region m b map_len

      foreign : give_up ((b + header) ∷ rest) base ≡ faulted
      foreign =
          rw (bf_sys_free-foreign (b + header) base (omega (arith, place.base_pos)) no_block, ◌>>=◌)

  abbrev log_step : Option (ℕ × List HugePage) → M (Option Pool)
  log_step logged = elim logged [
    | none ↦ give_up (self ∷ queue_block ∷ (b + header) ∷ [])
    | some (info_block, pages) ↦
        fill_pool s a size self queue_block (b + header) header info_block pages
          (u32 (num * huge_page_size / huge_page_size))
  ]

  -- What the call for the table returns decides how the function goes on.
  log_pool-step :
      (logged : Option (ℕ × List HugePage)) (m₁ : Machine)
      → log_virt_dma_addr s a.dev_id a.subdev_id b num mapping ≡ done (logged, m₁)
      → reserve_pool s a size m ≡ log_step logged m₁
  unfolding log_pool
  log_pool-step logged m₁ e =
      reserve_pool-log_pool
      ∙ >>=-step
          (log_virt_dma_addr s a.dev_id a.subdev_id (sub64 (b + header) header)
            (u32 (num * huge_page_size / huge_page_size)))
          log_step mapping m₁ logged (translated e)
    where
      translated :
          log_virt_dma_addr s a.dev_id a.subdev_id b num mapping ≡ done (logged, m₁)
          → log_virt_dma_addr s a.dev_id a.subdev_id
              (sub64 (b + header) header)
              (u32 (num * huge_page_size / huge_page_size))
              mapping
            ≡ done (logged, m₁)
      translated k =
          ap₂ (λ x y. log_virt_dma_addr s a.dev_id a.subdev_id x y mapping) (huge_ptr lawful place)
            (pages_num lawful place)
          ∙ k

  log_virt-none :
      s.calloc mapping (sign_extend num) 16 ≡ none
      → log_virt_dma_addr s a.dev_id a.subdev_id b num mapping ≡ done (none, mapping)
  unfolding log_virt_dma_addr
  log_virt-none e = rw (bf_sys_calloc-none s (sign_extend num) 16 mapping e, ◌>>=◌)

  -- If there is no memory for the table of huge pages, the error path is undefined behaviour.
  pub no_table-faulted :
      s.calloc mapping (sign_extend num) 16 ≡ none → reserve_pool s a size m ≡ faulted
  no_table-faulted e = log_pool-step none mapping (log_virt-none e) ∙ give_up-faulted []

  module _ (info_block : ℕ) (third : s.calloc mapping (sign_extend num) 16 ≡ some info_block)
      (identity : s.map_fn ≡ none)
      (frame : bf_mem_virt2phy s.pagemap (b + header) ≢ invalid_phy_addr) where
    log_virt-some :
        log_virt_dma_addr s a.dev_id a.subdev_id b num mapping
        ≡ done (some (info_block, identity_pages s num b), with_block mapping info_block)
    unfolding log_virt_dma_addr
    log_virt-some =
        >>=-step (bf_sys_calloc s (sign_extend num) 16)
          (λ block. elim block [
            | none ↦ pure none
            | some x ↦
                log_pages s a.dev_id a.subdev_id (rounds num) b >>= λ pages. pure (some (x, pages))
          ])
          mapping (with_block mapping info_block) (some info_block)
          (bf_sys_calloc-some s (sign_extend num) 16 info_block mapping third)
        ∙ >>=-step (log_pages s a.dev_id a.subdev_id (rounds num) b)
            (λ pages. pure (some (info_block, pages))) (with_block mapping info_block)
            (with_block mapping info_block) (identity_pages s num b)
            (ap (λ n. log_pages s a.dev_id a.subdev_id n b (with_block mapping info_block))
                (rounds-int num (small_num lawful place))
              ∙ log_pages-identity s a.dev_id a.subdev_id num b (with_block mapping info_block)
                  identity)

    -- With all memory at hand and a frame behind the first buffer, the function returns a pool.
    pub reserve_pool-some :
        reserve_pool s a size m
        ≡ done (
          some (
              filled a size self queue_block
                (b + header)
                header
                info_block
                (identity_pages s num b)
                num
                (bf_mem_virt2phy s.pagemap (b + header))),
          with_block mapping info_block,
        )
    unfolding fill_pool
    reserve_pool-some =
        log_pool-step (some (info_block, identity_pages s num b)) (with_block mapping info_block)
          log_virt-some
        ∙ (ap
              (λ n.
                fill_pool s a size self queue_block (b + header) header info_block
                  (identity_pages s num b) n (with_block mapping info_block))
              (pages_num lawful place)
            ∙ rw (
              ne→not-== (bf_mem_virt2phy s.pagemap (b + header)) invalid_phy_addr frame,
              fill_pool,
            ))
