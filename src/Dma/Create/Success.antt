-- ===== src/Dma/Create/Success.antt =====
-- The parts of pool creation from the page addresses on keep to the postcondition.
use target_syslibs.Base.{
  ℕ, ◌+◌, ◌*◌, ◌/◌, ◌^◌, ◌≤◌, ◌<◌, ◌≡◌, ◌≢◌, refl, sym, ap, ◌∙◌, Option, none, some, List, [], ◌∷◌,
  ne→not-==, arith,
}
use target_syslibs.Base.Words.{sub64, u32, sign_extend, rounds}
use target_syslibs.Dma.Align.{huge_page_size}
use target_syslibs.Dma.Pool.{HugePage, Pool}
use target_syslibs.Dma.Geometry.{header_for_bounds}
use target_syslibs.Dma.Machine.{Machine, System, M, ◌>>=◌, pure, is_in, bf_sys_calloc}
use target_syslibs.Dma.Machine.Lawful.{IsLawful}
use target_syslibs.Dma.Machine.Laws.{Ends, >>=-Ends, with_block, Calloced, bf_sys_calloc-Ends}
use target_syslibs.Dma.Create.{
  Args, header_for, fill_pool, log_pool, give_up, log_virt_dma_addr, log_pages,
}
use target_syslibs.Dma.Create.Bus.{dma_addrs, after_mapping}
use target_syslibs.Dma.Create.Steps.{Logged, log_pages-Ends}
use target_syslibs.Dma.Create.Post.{CreateResult, Ready, give_up-foreign}
use target_syslibs.Dma.Create.Filled.{rounds-int, Placed, fill_pool-Ends}

module _ {s : System} (lawful : IsLawful s) {a : Args} {size self queue_block base num : ℕ}
    {m m' : Machine} (pl : Placed a size self queue_block base num m m') where
  open pl use {req, fits, in_memory}

  abbrev vhuge : ℕ
  vhuge = base + header_for size a.cnt

  pub huge_ptr : sub64 vhuge (header_for size a.cnt) ≡ base
  huge_ptr = omega (arith, in_memory, header_for_bounds req)

  pub pages_num : u32 (num * huge_page_size / huge_page_size) ≡ num
  pages_num = omega (arith, in_memory)

  pub small_num : num < 2 ^ 31
  small_num = omega (arith, in_memory)

  vhuge_inside : (base ≤ vhuge) × (vhuge ≤ base + num * huge_page_size) × (0 < vhuge)
  vhuge_inside = omega (arith, fits, pl.base_pos)

  -- Without the array nothing has changed; with it, the machine is ready for the last part.
  abbrev Tabled : Option (ℕ × List HugePage) → Machine → Type 0
  Tabled none m₁ = m₁ ≡ m'
  Tabled (some (info_block, pages)) m₁ =
      Ready s.map_fn a size self queue_block vhuge (header_for size a.cnt) info_block pages num m m₁

  ready :
      (info_block : ℕ) (pages : List HugePage) (m₁ : Machine)
      → s.calloc m' (sign_extend num) 16 ≡ some info_block
      → Logged s a.dev_id a.subdev_id num base (with_block m' info_block) pages m₁
      → Ready s.map_fn a size self queue_block vhuge
          (header_for size a.cnt)
          info_block
          pages
          num
          m
          m₁
  ready info_block pages m₁ e lg = record {
    base = base;
    base_aligned = pl.base_aligned;
    base_pos = pl.base_pos;
    req = req;
    is_header = refl;
    is_vhuge = refl;
    fits = fits;
    in_memory = in_memory;
    table = lg.len;
    virt = lg.virt;
    heap = lg.heap ∙ ap (λ l. info_block ∷ l) pl.heap;
    regions = lg.regions ∙ pl.regions;
    stored = ap (λ f. f base) lg.word ∙ pl.stored;
    bus = lg.bus ∙ ap (after_mapping s.map_fn a.dev_id a.subdev_id (dma_addrs pages)) pl.bus;
    no_block = rw lg.heap (rw (ne→not-== info_block vhuge other) pl.no_block);
    self_pos = pl.self_pos;
    queue_pos = pl.queue_pos;
    info_pos = lawful.block_pos m' (sign_extend num) 16 info_block e;
    queue_new = pl.queue_new;
    info_new =
        ap (is_in info_block) (sym pl.heap) ∙ lawful.block_new m' (sign_extend num) 16 info_block e;
  }
    where
      other : info_block ≢ vhuge
      other =
          lawful.block_unmapped m' (sign_extend num) 16 info_block vhuge _ m.regions e pl.regions
            vhuge_inside.0 vhuge_inside.1

  log_virt-Ends : Ends Tabled (log_virt_dma_addr s a.dev_id a.subdev_id base num m')
  unfolding log_virt_dma_addr
  log_virt-Ends =
      >>=-Ends (Calloced s m' (sign_extend num) 16) Tabled (bf_sys_calloc s (sign_extend num) 16)
        (λ block. elim block [
          | none ↦ pure none
          | some b ↦
              log_pages s a.dev_id a.subdev_id (rounds num) base >>= λ pages. pure (some (b, pages))
        ])
        m' (bf_sys_calloc-Ends s (sign_extend num) 16 m') after
    where
      after :
          (block : Option ℕ) (m₁ : Machine)
          → Calloced s m' (sign_extend num) 16 block m₁
          → Ends Tabled (
              (elim block as (λ _. M (Option (ℕ × List HugePage))) [
                | none ↦ pure none
                | some b ↦ log_pages s a.dev_id a.subdev_id (rounds num) base >>= λ pages.
                    pure (some (b, pages))
              ])
                m₁)
      after none m₁ e = e
      after (some b) m₁ (e, em) =
          rw (em, rounds-int num small_num)
            (>>=-Ends (Logged s a.dev_id a.subdev_id num base (with_block m' b)) Tabled
              (log_pages s a.dev_id a.subdev_id num base) (λ pages. pure (some (b, pages)))
              (with_block m' b)
              (log_pages-Ends s a.dev_id a.subdev_id num base (with_block m' b)
                (omega (arith, in_memory)))
              (λ pages m₂ lg. ready b pages m₂ e lg))

  translated : Ends Tabled (
      log_virt_dma_addr s a.dev_id a.subdev_id
        (sub64 vhuge (header_for size a.cnt))
        (u32 (num * huge_page_size / huge_page_size))
        m')
  translated = rw (huge_ptr, pages_num) log_virt-Ends

  pub log_pool-Ends :
      Ends
        (CreateResult s.map_fn a size m)
        (log_pool s a size self queue_block vhuge (header_for size a.cnt) (num * huge_page_size) m')
  unfolding log_pool
  log_pool-Ends =
      >>=-Ends Tabled (CreateResult s.map_fn a size m)
        (log_virt_dma_addr s a.dev_id a.subdev_id (sub64 vhuge (header_for size a.cnt))
          (u32 (num * huge_page_size / huge_page_size)))
        (λ logged. elim logged [
          | none ↦ give_up (self ∷ queue_block ∷ vhuge ∷ [])
          | some (info_block, pages) ↦
              fill_pool s a size self queue_block vhuge (header_for size a.cnt) info_block pages
                (u32 (num * huge_page_size / huge_page_size))
        ])
        m' translated after
    where
      after :
          (logged : Option (ℕ × List HugePage)) (m₁ : Machine)
          → Tabled logged m₁
          → Ends (CreateResult s.map_fn a size m) (
              (elim logged as (λ _. M (Option Pool)) [
                | none ↦ give_up (self ∷ queue_block ∷ vhuge ∷ [])
                | some (info_block, pages) ↦
                    fill_pool s a size self queue_block vhuge
                      (header_for size a.cnt)
                      info_block
                      pages
                      (u32 (num * huge_page_size / huge_page_size))
              ])
                m₁)
      after none m₁ e = rw e (
          give_up-foreign (CreateResult s.map_fn a size m) (self ∷ queue_block ∷ []) [] vhuge m'
            vhuge_inside.2 pl.no_block)
      after (some (info_block, pages)) m₁ r = rw pages_num (fill_pool-Ends r s)
