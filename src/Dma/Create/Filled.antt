-- ===== src/Dma/Create/Filled.antt =====
-- The last part of pool creation, from a machine on which the table is made, keeps to the
-- postcondition.
use target_syslibs.Base.{
  ℕ, ◌+◌, ◌*◌, ◌%◌, ◌^◌, ◌≤◌, ◌<◌, ◌≡◌, refl, ap, ◌∙◌, Bool, true, false, Option, some, List, [],
  ◌∷◌, if◌then◌else◌, ◌==◌, lt→ltb, arith,
}
use target_syslibs.Base.Words.{rounds}
use target_syslibs.Dma.Align.{huge_page_size}
use target_syslibs.Dma.Pool.{HugePage, invalid_phy_addr}
use target_syslibs.Dma.Address.{bf_mem_virt2phy}
use target_syslibs.Dma.Geometry.{IsRequest}
use target_syslibs.Dma.Machine.{Machine, MapFn, System, pure, is_in}
use target_syslibs.Dma.Machine.Laws.{Ends}
use target_syslibs.Dma.Create.{Args, header_for, filled, fill_pool, give_up}
use target_syslibs.Dma.Create.Post.{
  Created, CreateResult, Ready, length-buf_addrs, get_elem?-buf_addrs, give_up-foreign,
}

pub rounds-int : (n : ℕ) → n < 2 ^ 31 → rounds n ≡ n
rounds-int n h = rw (lt→ltb n (2 ^ 31) h)

module _ {o : Option MapFn} {a : Args} {size self queue_block vhuge header info_block : ℕ}
    {pages : List HugePage} {num : ℕ} {m m' : Machine}
    (r : Ready o a size self queue_block vhuge header info_block pages num m m') where
  open r use {base, req, is_header, is_vhuge, fits, in_memory}

  place : vhuge ≡ base + header_for size a.cnt
  place = omega (arith, is_vhuge, is_header)

  filled-Created :
      (phys : ℕ)
      → Created o a size m
          (filled a size self queue_block vhuge header info_block pages num phys)
          m'
  filled-Created phys = record {
    base = base;
    base_aligned = r.base_aligned;
    base_pos = r.base_pos;
    buf_size = refl;
    buf_cnt = refl;
    cnt_lt = req.count;
    inited = refl;
    valid = record {
      slots = length-buf_addrs (rounds a.cnt) vhuge size ∙ rounds-int a.cnt req.count;
      small = req.count;
      in_range = omega arith;
      open_gate = refl;
    };
    all_free = refl;
    alignment = refl;
    device = (refl, refl);
    header = is_header;
    start = place;
    pool_ptr = place;
    buffer = λ i h. rw (rounds-int a.cnt req.count) (
        get_elem?-buf_addrs a.cnt vhuge size i h (omega (arith, place, fits, in_memory))
        ∙ ap (λ (t : ℕ). some (t + i * size)) place);
    inside = fits;
    in_memory = in_memory;
    table = r.table;
    virt = r.virt;
    heap = r.heap;
    regions = r.regions;
    stored = r.stored;
    bus = r.bus;
    self_pos = r.self_pos;
    queue_pos = r.queue_pos;
    info_pos = r.info_pos;
    queue_new = r.queue_new;
    info_new = r.info_new;
  }

  pub fill_pool-Ends :
      (s : System)
      → Ends
          (CreateResult o a size m)
          (fill_pool s a size self queue_block vhuge header info_block pages num m')
  unfolding fill_pool
  fill_pool-Ends s = go (bf_mem_virt2phy s.pagemap vhuge == invalid_phy_addr)
    where
      go :
          (b : Bool)
          → Ends (CreateResult o a size m) (
              (if b
                  then give_up (self ∷ queue_block ∷ vhuge ∷ info_block ∷ [])
                  else pure (
                      some (
                        filled a size self queue_block vhuge header info_block pages num
                          (bf_mem_virt2phy s.pagemap vhuge))))
                m')
      go true =
          give_up-foreign (CreateResult o a size m) (self ∷ queue_block ∷ []) (info_block ∷ [])
            vhuge m' (omega (arith, is_vhuge, r.base_pos)) r.no_block
      go false = filled-Created (bf_mem_virt2phy s.pagemap vhuge)

-- The machine that `log_pool` starts from: the mapping is made, and its length is in its first word.
pub record Placed (a : Args) (size self queue_block base num : ℕ) (m m' : Machine) : Type 0 where
  pub base_aligned : base % huge_page_size ≡ 0
  pub base_pos : 0 < base
  pub req : IsRequest size a.cnt
  pub fits : header_for size a.cnt + size * a.cnt ≤ num * huge_page_size
  pub in_memory : base + num * huge_page_size < 2 ^ 47
  pub heap : m'.heap ≡ queue_block ∷ self ∷ m.heap
  pub regions : m'.regions ≡ record { base = base; len = num * huge_page_size } ∷ m.regions
  pub stored : m'.word base ≡ num * huge_page_size
  pub bus : m'.bus ≡ m.bus
  pub no_block : is_in (base + header_for size a.cnt) m'.heap ≡ false
  pub self_pos : 0 < self
  pub queue_pos : 0 < queue_block
  pub queue_new : is_in queue_block (self ∷ m.heap) ≡ false
