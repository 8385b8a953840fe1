-- ===== src/Dma/Create/Post.antt =====
-- What `bf_sys_dma_pool_create` leaves when it returns: a pool in good order, or, with the result
-- -1, the machine as it was.
use target_syslibs.Base.{
  ℕ, zero, suc, ◌+◌, ◌*◌, ◌%◌, ◌^◌, ◌≤◌, ◌<◌, ◌≡◌, refl, ap, ◌∙◌, false, Option, none, some, List,
  [], ◌∷◌, ◌++◌, ne→not-==, length, get_elem?, arith,
}
use target_syslibs.Base.Words.{add64}
use target_syslibs.Dma.Align.{huge_page_size}
use target_syslibs.Dma.Pool.{HugePage, Pool}
use target_syslibs.Dma.Queue.Stack.{IsValid}
use target_syslibs.Dma.Geometry.{IsRequest}
use target_syslibs.Dma.Create.Bus.{dma_addrs, after_mapping}
use target_syslibs.Dma.Machine.{Machine, MapFn, is_in, remove, bf_sys_free}
use target_syslibs.Dma.Machine.Laws.{Ends, >>=-Ends}
use target_syslibs.Dma.Create.{Args, header_for, buf_addrs, give_up}

-- The buffers' addresses, one after the other.
pub length-buf_addrs : (n ptr size : ℕ) → length (buf_addrs n ptr size) ≡ n
unfolding buf_addrs
length-buf_addrs zero ptr size = refl
length-buf_addrs (suc n) ptr size = ap suc (length-buf_addrs n (add64 ptr size) size)

pub get_elem?-buf_addrs :
    (n ptr size i : ℕ)
    → i < n
    → ptr + n * size < 2 ^ 64
    → get_elem? (buf_addrs n ptr size) i ≡ some (ptr + i * size)
unfolding buf_addrs
get_elem?-buf_addrs zero ptr size i h fit = elim h [ ]
get_elem?-buf_addrs (suc n) ptr size zero h fit = ap some (omega arith)
get_elem?-buf_addrs (suc n) ptr size (suc i) h fit =
    get_elem?-buf_addrs n (add64 ptr size) size i (omega arith) (omega arith)
    ∙ ap some (omega arith)

-- A pool whose buffers lie one after the other behind the header of a mapping of huge pages.
pub record Created (o : Option MapFn) (a : Args) (size : ℕ) (m : Machine) (p : Pool) (m' : Machine)
    : Type 0 where
  pub base : ℕ
  pub base_aligned : base % huge_page_size ≡ 0
  pub base_pos : 0 < base
  pub buf_size : p.buf_size ≡ size
  pub buf_cnt : p.buf_cnt ≡ a.cnt
  pub cnt_lt : a.cnt < 2 ^ 31
  pub inited : p.pool_inited ≡ 1
  pub valid : IsValid p
  pub all_free : p.pool_buf_offset ≡ 0
  pub alignment : p.alignment ≡ a.align
  pub device : (p.dev_id ≡ a.dev_id) × (p.subdev_id ≡ a.subdev_id)
  pub header : p.pool_hdr_offset ≡ header_for size a.cnt
  pub start : p.buf_start ≡ base + header_for size a.cnt
  pub pool_ptr : p.pool_ptr ≡ base + header_for size a.cnt
  pub buffer :
      (i : ℕ)
      → i < a.cnt
      → get_elem? p.pool_buf_ptr i ≡ some (base + header_for size a.cnt + i * size)
  pub inside : header_for size a.cnt + size * a.cnt ≤ p.num_huge_pages * huge_page_size
  pub in_memory : base + p.num_huge_pages * huge_page_size < 2 ^ 47
  pub table : length p.huge_page_info ≡ p.num_huge_pages
  pub virt :
      (k : ℕ) (h : HugePage)
      → get_elem? p.huge_page_info k ≡ some h
      → h.base_virt_addr ≡ base + k * huge_page_size
  pub heap : m'.heap ≡ p.info_block ∷ p.queue_block ∷ p.self ∷ m.heap
  pub regions :
      m'.regions ≡ record { base = base; len = p.num_huge_pages * huge_page_size } ∷ m.regions
  pub stored : m'.word base ≡ p.num_huge_pages * huge_page_size
  pub bus : m'.bus ≡ after_mapping o a.dev_id a.subdev_id (dma_addrs p.huge_page_info) m.bus
  pub self_pos : 0 < p.self
  pub queue_pos : 0 < p.queue_block
  pub info_pos : 0 < p.info_block
  pub queue_new : is_in p.queue_block (p.self ∷ m.heap) ≡ false
  pub info_new : is_in p.info_block (p.queue_block ∷ p.self ∷ m.heap) ≡ false

abbrev pub CreateResult : Option MapFn → Args → ℕ → Machine → Option Pool → Machine → Type 0
CreateResult o a size m none m' = m' ≡ m
CreateResult o a size m (some p) m' = Created o a size m p m'

-- The machine that `fill_pool` starts from.
pub record Ready (o : Option MapFn) (a : Args) (size self queue_block vhuge header info_block : ℕ)
    (pages : List HugePage) (num : ℕ) (m m' : Machine) : Type 0 where
  pub base : ℕ
  pub base_aligned : base % huge_page_size ≡ 0
  pub base_pos : 0 < base
  pub req : IsRequest size a.cnt
  pub is_header : header ≡ header_for size a.cnt
  pub is_vhuge : vhuge ≡ base + header
  pub fits : header_for size a.cnt + size * a.cnt ≤ num * huge_page_size
  pub in_memory : base + num * huge_page_size < 2 ^ 47
  pub table : length pages ≡ num
  pub virt :
      (k : ℕ) (h : HugePage)
      → get_elem? pages k ≡ some h
      → h.base_virt_addr ≡ base + k * huge_page_size
  pub heap : m'.heap ≡ info_block ∷ queue_block ∷ self ∷ m.heap
  pub regions : m'.regions ≡ record { base = base; len = num * huge_page_size } ∷ m.regions
  pub stored : m'.word base ≡ num * huge_page_size
  pub bus : m'.bus ≡ after_mapping o a.dev_id a.subdev_id (dma_addrs pages) m.bus
  pub no_block : is_in vhuge m'.heap ≡ false
  pub self_pos : 0 < self
  pub queue_pos : 0 < queue_block
  pub info_pos : 0 < info_block
  pub queue_new : is_in queue_block (self ∷ m.heap) ≡ false
  pub info_new : is_in info_block (queue_block ∷ self ∷ m.heap) ≡ false

is_in-remove : (v a : ℕ) (xs : List ℕ) → is_in v xs ≡ false → is_in v (remove a xs) ≡ false
is_in-remove v a [] h = refl
is_in-remove v a (x ∷ xs) h = ground (arith, is_in-remove v a xs)

-- A free leaves no address in the heap that was not there.
bf_sys_free-Ends :
    (a v : ℕ) (m : Machine)
    → is_in v m.heap ≡ false
    → Ends (λ _ m'. is_in v m'.heap ≡ false) (bf_sys_free a m)
unfolding bf_sys_free
bf_sys_free-Ends a v m h = ground (arith, is_in-remove v a m.heap)

-- An error path that frees what is no block of the heap does not return.
pub give_up-foreign :
    (Q : Option Pool → Machine → Type 0) (before after : List ℕ) (v : ℕ) (m : Machine)
    → 0 < v
    → is_in v m.heap ≡ false
    → Ends Q (give_up (before ++ v ∷ after) m)
unfolding give_up
give_up-foreign Q [] after v m pos h = rw (ne→not-== v 0 (omega arith), h, Ends) tt
give_up-foreign Q (a ∷ before) after v m pos h =
    >>=-Ends (λ _ m₁. is_in v m₁.heap ≡ false) Q (bf_sys_free a)
      (λ _. give_up (before ++ v ∷ after)) m (bf_sys_free-Ends a v m h)
      (λ _ m₁ h₁. give_up-foreign Q before after v m₁ pos h₁)
