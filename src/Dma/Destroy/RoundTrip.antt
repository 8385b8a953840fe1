-- ===== src/Dma/Destroy/RoundTrip.antt =====
-- Destroying a pool gives back what creating it took.
use target_syslibs.Base.{
  ℕ, ◌*◌, ◌/◌, ◌%◌, ◌≤◌, ◌<◌, ◌≡◌, refl, sym, ap, ◌∙◌, false, none, some, List, [], ◌∷◌, length,
  ne→not-==, arith,
}
use target_syslibs.Base.Outcome.{done}
use target_syslibs.Base.Words.{u32, sub64, rounds}
use target_syslibs.Dma.Align.{huge_page_size}
use target_syslibs.Dma.Pool.{HugePage, Pool}
use target_syslibs.Dma.Geometry.{IsRequest, header_for_bounds}
use target_syslibs.Dma.Machine.{
  Machine, MapFn, UnmapFn, Region, System, M, ◌>>◌, bf_sys_free, munmap, is_in, OnBus, take_off,
}
use target_syslibs.Dma.Machine.Laws.{>>=-step, with_block, bf_sys_free-last, bf_sys_free-below}
use target_syslibs.Dma.Create.{Args}
use target_syslibs.Dma.Create.Bus.{dma_addrs, after_mapping, remove_all, remove_all-after_mapping}
use target_syslibs.Dma.Create.Post.{Created}
use target_syslibs.Dma.Create.Filled.{rounds-int}
use target_syslibs.Dma.Destroy.{free_huge_pages, unmap_pages, unmap_all, bf_sys_dma_pool_destroy}

-- Both functions for the bus are registered, and the second one never fails; or neither is.
pub data IsBalanced (s : System) : Type 0 where
  unregistered : s.map_fn ≡ none → s.unmap_fn ≡ none → IsBalanced s
  registered :
      (f : MapFn) (g : UnmapFn)
      → s.map_fn ≡ some f
      → s.unmap_fn ≡ some g
      → ((dev_id subdev_id d : ℕ) → g dev_id subdev_id d ≡ false)
      → IsBalanced s

unmap_pages-done :
    (g : UnmapFn) (dev_id subdev_id : ℕ) (hs : List HugePage) (m : Machine)
    → ((d : ℕ) → g dev_id subdev_id d ≡ false)
    → unmap_pages g dev_id subdev_id (length hs) hs m
      ≡ done (tt, record m { bus = remove_all dev_id subdev_id (dma_addrs hs) m.bus })
unfolding unmap_pages
unmap_pages-done g dev_id subdev_id [] m ok = refl
unmap_pages-done g dev_id subdev_id (h ∷ hs) m ok = rw (ok h.base_dma_addr) (
    unmap_pages-done g dev_id subdev_id hs
      (record m { bus = take_off dev_id subdev_id h.base_dma_addr m.bus }) ok)

-- What creation mapped is unmapped.
unmap_all-done :
    (s : System) (dev_id subdev_id : ℕ) (hs : List HugePage) (bus : List OnBus) (m : Machine)
    → IsBalanced s
    → m.bus ≡ after_mapping s.map_fn dev_id subdev_id (dma_addrs hs) bus
    → unmap_all s dev_id subdev_id (length hs) hs m ≡ done (tt, record m { bus = bus })
unfolding unmap_all
unmap_all-done s dev_id subdev_id hs bus m (unregistered e e') b =
    rw (e', b ∙ ap (λ o. after_mapping o dev_id subdev_id (dma_addrs hs) bus) e) refl
unmap_all-done s dev_id subdev_id hs bus m (registered f g e e' ok) b = rw e' (
    unmap_pages-done g dev_id subdev_id hs m (ok dev_id subdev_id)
    ∙ ap (λ l. done (tt, record m { bus = l }))
        (ap (remove_all dev_id subdev_id (dma_addrs hs))
            (b ∙ ap (λ o. after_mapping o dev_id subdev_id (dma_addrs hs) bus) e)
          ∙ remove_all-after_mapping dev_id subdev_id f (dma_addrs hs) bus))

munmap-first :
    (base len : ℕ) (rs : List Region) (m : Machine)
    → m.regions ≡ record { base = base; len = len } ∷ rs
    → munmap base len m ≡ done (tt, record m { regions = rs })
unfolding munmap
munmap-first base len rs m front = ground arith

-- A mapping whose length is stored in its first word is unmapped.
free_huge_pages-done :
    (s : System) (dev_id subdev_id : ℕ) (hs : List HugePage) (ptr header base len : ℕ)
    (bus : List OnBus) (rs : List Region) (m : Machine)
    → unmap_all s dev_id subdev_id (rounds (u32 (len / huge_page_size))) hs m
      ≡ done (tt, record m { bus = bus })
    → 0 < ptr
    → sub64 ptr header ≡ base
    → m.word base ≡ len
    → 0 < len
    → len % huge_page_size ≡ 0
    → m.regions ≡ record { base = base; len = len } ∷ rs
    → free_huge_pages s dev_id subdev_id hs ptr header m
      ≡ done (tt, record m { regions = rs; bus = bus })
unfolding free_huge_pages
free_huge_pages-done s dev_id subdev_id hs ptr header base len bus rs m unmaps pos at_base stored
      len_pos whole front =
    rw (ne→not-== ptr 0 (omega arith), at_base, stored, ne→not-== len 0 (omega arith), whole)
      (>>=-step (unmap_all s dev_id subdev_id (rounds (u32 (len / huge_page_size))) hs)
          (λ _. munmap base len) m (record m { bus = bus }) tt unmaps
        ∙ munmap-first base len rs (record m { bus = bus }) front)

-- The three blocks of a pool are freed in the order that destruction has.
abbrev free_blocks : ℕ → ℕ → ℕ → M (Unit {0})
free_blocks queue_block info_block self =
    bf_sys_free queue_block >> (bf_sys_free info_block >> bf_sys_free self)

free_blocks-done :
    (self queue_block info_block : ℕ) (m : Machine)
    → 0 < self
    → 0 < queue_block
    → 0 < info_block
    → is_in info_block (queue_block ∷ self ∷ m.heap) ≡ false
    → free_blocks queue_block info_block self
        (with_block (with_block (with_block m self) queue_block) info_block)
      ≡ done (tt, m)
free_blocks-done self queue_block info_block m ps pq pi new =
    >>=-step (bf_sys_free queue_block) (λ _. bf_sys_free info_block >> bf_sys_free self)
      (with_block (with_block (with_block m self) queue_block) info_block)
      (with_block (with_block m self) info_block) tt
      (bf_sys_free-below queue_block info_block (with_block m self) pq new)
    ∙ (>>=-step (bf_sys_free info_block) (λ _. bf_sys_free self)
          (with_block (with_block m self) info_block) (with_block m self) tt
          (bf_sys_free-last info_block (with_block m self) pi)
        ∙ bf_sys_free-last self m ps)

-- A pool that creation returned, on the machine that creation left.
module _ {a : Args} {size : ℕ} {m m' : Machine} {p : Pool} (s : System)
    (c : Created s.map_fn a size m p m') (small : size ≤ huge_page_size)
    (balanced : IsBalanced s) where
  req : IsRequest size a.cnt
  req = record { small = small; count = c.cnt_lt }

  pages :
      rounds (u32 (p.num_huge_pages * huge_page_size / huge_page_size)) ≡ length p.huge_page_info
  pages =
      ap rounds {x = u32 (p.num_huge_pages * huge_page_size / huge_page_size)}
        {y = p.num_huge_pages} (omega (arith, c.in_memory))
      ∙ rounds-int p.num_huge_pages (omega (arith, c.in_memory))
      ∙ sym c.table

  unmapped_bus :
      unmap_all s p.dev_id p.subdev_id
        (rounds (u32 (p.num_huge_pages * huge_page_size / huge_page_size)))
        p.huge_page_info
        m'
      ≡ done (tt, record m' { bus = m.bus })
  unmapped_bus =
      ap (λ n. unmap_all s p.dev_id p.subdev_id n p.huge_page_info m') pages
      ∙ unmap_all-done s p.dev_id p.subdev_id p.huge_page_info m.bus m' balanced
          (c.bus ∙ cc (c.device.0, c.device.1))

  unmapped :
      free_huge_pages s p.dev_id p.subdev_id p.huge_page_info p.pool_ptr p.pool_hdr_offset m'
      ≡ done (tt, record m' { regions = m.regions; bus = m.bus })
  unmapped =
      free_huge_pages-done s p.dev_id p.subdev_id p.huge_page_info p.pool_ptr p.pool_hdr_offset
        c.base (p.num_huge_pages * huge_page_size) m.bus m.regions m' unmapped_bus
        (omega (arith, c.pool_ptr, c.base_pos))
        (omega (arith, c.pool_ptr, c.header, c.in_memory, header_for_bounds req)) c.stored
        (omega (arith, c.inside, header_for_bounds req)) (omega arith) c.regions

  abbrev cleared : Machine
  cleared = record m' { regions = m.regions; heap = m.heap; bus = m.bus }

  -- If functions for the bus are registered and the one that unmaps never fails, or none is
  -- registered, destroying a pool that creation returned, whatever calls have since made of its free
  -- list, offset and gate, returns and leaves the heap, the mappings and what is mapped on the bus for
  -- each device as they were before the creation.
  pub bf_sys_dma_pool_destroy-create :
      (queue : List ℕ) (offset gate : ℕ)
      → bf_sys_dma_pool_destroy s
          (record p { pool_buf_ptr = queue; pool_buf_offset = offset; pool_gate = gate })
          m'
        ≡ done (tt, record m' { regions = m.regions; heap = m.heap; bus = m.bus })
  unfolding bf_sys_dma_pool_destroy
  bf_sys_dma_pool_destroy-create queue offset gate =
      >>=-step
        (free_huge_pages s p.dev_id p.subdev_id p.huge_page_info p.pool_ptr p.pool_hdr_offset)
        (λ _. bf_sys_free p.queue_block >> (bf_sys_free p.info_block >> bf_sys_free p.self)) m'
        (record m' { regions = m.regions; bus = m.bus }) tt unmapped
      ∙ (ap
            (λ h.
              free_blocks p.queue_block p.info_block p.self
                (record m' { regions = m.regions; heap = h; bus = m.bus }))
            c.heap
          ∙ free_blocks-done p.self p.queue_block p.info_block cleared c.self_pos c.queue_pos
              c.info_pos c.info_new)
