-- ===== src/Dma/Create/Steps.antt =====
-- What the parts of pool creation leave: the mapping and the table of its pages.
use target_syslibs.Base.{
  [], ap, sym, ℕ, zero, suc, ◌+◌, ◌*◌, ◌^◌, ◌<◌, ◌≡◌, refl, ◌∙◌, Bool, true, false, Option, none,
  some, List, ◌∷◌, if◌then◌else◌, ◌==◌, Option-cases, inl, inr, length, get_elem?, arith,
}
use target_syslibs.Base.Outcome.{Outcome, done, aborted}
use target_syslibs.Base.Words.{add64}
use target_syslibs.Dma.Align.{huge_page_size, align_to_bf_page_size}
use target_syslibs.Dma.Pool.{HugePage}
use target_syslibs.Dma.Address.{bf_mem_virt2dma}
use target_syslibs.Dma.Machine.{OnBus, on_bus, Machine, System, MapFn, ◌>>=◌, pure}
use target_syslibs.Dma.Machine.Laws.{Ends, >>=-Ends}
use target_syslibs.Dma.Create.Bus.{dma_addrs, after_mapping, after_mapping-cons}
use target_syslibs.Dma.Create.{alloc_huge_pages, log_pages, map_on_bus}

-- The machine after a mapping of `len` bytes at `b`, with its length stored in its first word.
abbrev pub with_region : Machine → ℕ → ℕ → Machine
with_region m b len = record m {
  regions = record { base = b; len = len } ∷ m.regions;
  word = λ a. if b == a then len else m.word a;
}

module _ (s : System) where
  pub alloc_huge_pages-first :
      (size header b : ℕ) (m : Machine)
      → s.mmap m true (align_to_bf_page_size (add64 size header)) ≡ some b
      → alloc_huge_pages s size header m
        ≡ done (some (add64 b header), with_region m b (align_to_bf_page_size (add64 size header)))
  unfolding alloc_huge_pages
  alloc_huge_pages-first size header b m e = ground arith

  alloc_huge_pages-second :
      (size header b : ℕ) (m : Machine)
      → s.mmap m true (align_to_bf_page_size (add64 size header)) ≡ none
      → s.mmap m false (align_to_bf_page_size (add64 size header)) ≡ some b
      → alloc_huge_pages s size header m
        ≡ done (some (add64 b header), with_region m b (align_to_bf_page_size (add64 size header)))
  unfolding alloc_huge_pages
  alloc_huge_pages-second size header b m e e' = ground arith

  alloc_huge_pages-none :
      (size header : ℕ) (m : Machine)
      → s.mmap m true (align_to_bf_page_size (add64 size header)) ≡ none
      → s.mmap m false (align_to_bf_page_size (add64 size header)) ≡ none
      → alloc_huge_pages s size header m ≡ done (none, m)
  unfolding alloc_huge_pages
  alloc_huge_pages-none size header m e e' = ground arith

  -- Either nothing is mapped, or one of the two calls of `mmap` gave the address.
  abbrev pub Mapped : Machine → ℕ → ℕ → Option ℕ → Machine → Type 0
  Mapped m size header none m' = m' ≡ m
  Mapped m size header (some v) m' =
      (b : ℕ) × (huge : Bool) × (s.mmap m huge (align_to_bf_page_size (add64 size header)) ≡ some b)
      × (v ≡ add64 b header)
      × (m' ≡ with_region m b (align_to_bf_page_size (add64 size header)))

  pub alloc_huge_pages-Ends :
      (size header : ℕ) (m : Machine)
      → Ends (Mapped m size header) (alloc_huge_pages s size header m)
  alloc_huge_pages-Ends size header m = elim (Option-cases (s.mmap m true len)) [
    | inr (b, e) ↦ rw (alloc_huge_pages-first size header b m e) (b, true, e, refl, refl)
    | inl e ↦ elim (Option-cases (s.mmap m false len)) [
      | inr (b, e') ↦ rw (alloc_huge_pages-second size header b m e e') (b, false, e', refl, refl)
      | inl e' ↦ rw (alloc_huge_pages-none size header m e e') refl
    ]
  ]
    where
      len : ℕ
      len = align_to_bf_page_size (add64 size header)

  -- The table has a page for each round, from `ptr` on. Only the bus changes.
  pub record Logged (dev_id subdev_id n ptr : ℕ) (m : Machine) (hs : List HugePage) (m' : Machine)
      : Type 0 where
    pub len : length hs ≡ n
    pub virt :
        (k : ℕ) (h : HugePage)
        → get_elem? hs k ≡ some h
        → h.base_virt_addr ≡ ptr + k * huge_page_size
    pub heap : m'.heap ≡ m.heap
    pub regions : m'.regions ≡ m.regions
    pub word : m'.word ≡ m.word
    pub bus : m'.bus ≡ after_mapping s.map_fn dev_id subdev_id (dma_addrs hs) m.bus

  -- A mapping on the bus changes nothing else.
  record SameMemory (dev_id subdev_id : ℕ) (o : Option MapFn) (m : Machine) (dma : ℕ) (m' : Machine)
      : Type 0 where
    heap : m'.heap ≡ m.heap
    regions : m'.regions ≡ m.regions
    word : m'.word ≡ m.word
    bus : m'.bus ≡ after_mapping o dev_id subdev_id (dma ∷ []) m.bus

  bus-Ends :
      (dev_id subdev_id : ℕ) (f : MapFn) (o : Option ℕ) (m : Machine)
      → Ends (SameMemory dev_id subdev_id (some f) m) (elim o as (λ _. Outcome (ℕ × Machine)) [
        | none ↦ aborted
        | some dma ↦ done (dma, record m { bus = on_bus dev_id subdev_id dma ∷ m.bus })
      ])
  bus-Ends dev_id subdev_id f none m = tt
  bus-Ends dev_id subdev_id f (some dma) m = record {
    heap = refl;
    regions = refl;
    word = refl;
    bus = refl;
  }

  map_on_bus-Ends :
      (dev_id subdev_id phys : ℕ) (m : Machine)
      → Ends (SameMemory dev_id subdev_id s.map_fn m) (map_on_bus s dev_id subdev_id phys m)
  unfolding map_on_bus
  map_on_bus-Ends dev_id subdev_id phys m = go s.map_fn
    where
      go :
          (o : Option MapFn)
          → Ends (SameMemory dev_id subdev_id o m) (elim o as (λ _. Outcome (ℕ × Machine)) [
            | none ↦ done (phys, m)
            | some map_fn ↦ elim (map_fn dev_id subdev_id phys) as (λ _. Outcome (ℕ × Machine)) [
              | none ↦ aborted
              | some dma ↦ done (dma, record m { bus = on_bus dev_id subdev_id dma ∷ m.bus })
            ]
          ])
      go none = record { heap = refl; regions = refl; word = refl; bus = refl }
      go (some map_fn) = bus-Ends dev_id subdev_id map_fn (map_fn dev_id subdev_id phys) m

  none_mapped :
      (o : Option MapFn) (dev_id subdev_id : ℕ) (bus : List OnBus)
      → bus ≡ after_mapping o dev_id subdev_id [] bus
  none_mapped none dev_id subdev_id bus = refl
  none_mapped (some f) dev_id subdev_id bus = refl

  pub log_pages-Ends :
      (dev_id subdev_id n ptr : ℕ) (m : Machine)
      → ptr + n * huge_page_size < 2 ^ 64
      → Ends (Logged dev_id subdev_id n ptr m) (log_pages s dev_id subdev_id n ptr m)
  unfolding log_pages
  log_pages-Ends dev_id subdev_id zero ptr m h = record {
    len = refl;
    virt = λ k x e. ground arith;
    heap = refl;
    regions = refl;
    word = refl;
    bus = none_mapped s.map_fn dev_id subdev_id m.bus;
  }
  log_pages-Ends dev_id subdev_id (suc n) ptr m h =
      >>=-Ends (SameMemory dev_id subdev_id s.map_fn m) (Logged dev_id subdev_id (suc n) ptr m)
        (map_on_bus s dev_id subdev_id (bf_mem_virt2dma s.pagemap ptr))
        (λ dma. log_pages s dev_id subdev_id n next >>= λ rest. pure (page dma ∷ rest)) m
        (map_on_bus-Ends dev_id subdev_id (bf_mem_virt2dma s.pagemap ptr) m)
        λ dma m₁ same.
          >>=-Ends (Logged dev_id subdev_id n next m₁) (Logged dev_id subdev_id (suc n) ptr m)
            (log_pages s dev_id subdev_id n next) (λ rest. pure (page dma ∷ rest)) m₁
            (log_pages-Ends dev_id subdev_id n next m₁ (omega arith))
            λ rest m₂ logged. record {
              len = omega (arith, logged.len);
              virt = virt_cons dma rest logged.virt;
              heap = logged.heap ∙ same.heap;
              regions = logged.regions ∙ same.regions;
              word = logged.word ∙ same.word;
              bus =
                  logged.bus
                  ∙ ap (after_mapping s.map_fn dev_id subdev_id (dma_addrs rest)) same.bus
                  ∙ sym (after_mapping-cons s.map_fn dev_id subdev_id dma (dma_addrs rest) m.bus);
            }
    where
      next : ℕ
      next = add64 ptr huge_page_size

      page : ℕ → HugePage
      page dma = record { base_dma_addr = dma; base_virt_addr = ptr }

      virt_cons :
          (dma : ℕ) (rest : List HugePage)
          → ((k : ℕ) (x : HugePage)
              → get_elem? rest k ≡ some x
              → x.base_virt_addr ≡ next + k * huge_page_size)
          → (k : ℕ) (x : HugePage) → get_elem? (page dma ∷ rest) k ≡ some x
          → x.base_virt_addr ≡ ptr + k * huge_page_size
      virt_cons dma rest v zero x e = ground arith
      virt_cons dma rest v (suc k) x e = omega (arith, v k x e)
