-- ===== src/Dma/Sharing.antt =====
-- A new pool in the hands of several threads: pool creation and the functions of the gate together.
pub mod Bus
use mathlib.Core.Path.{subst}
use target_syslibs.Base.{
  ℕ, ◌+◌, ◌*◌, ◌^◌, ◌≤◌, ◌<◌, ◌≡◌, ◌≢◌, ◌⊎◌, inl, inr, refl, sym, Option, some, ◌∷◌, get_elem?,
  lt_of_get_elem?, arith, dec_lt, ℕ_discrete,
}
use target_syslibs.Base.Counts.{get_elem?-count, count-once}
use target_syslibs.Base.Threads.{le-tally}
use target_syslibs.Base.Outcome.{done}
use target_syslibs.Dma.Align.{huge_page_size}
use target_syslibs.Dma.Pool.{Pool}
use target_syslibs.Dma.Machine.{Machine, MapFn, System}
use target_syslibs.Dma.Machine.Lawful.{IsLawful}
use target_syslibs.Dma.Machine.Laws.{Ends}
use target_syslibs.Dma.Create.{Args, header_for, bf_sys_dma_pool_create}
use target_syslibs.Dma.Create.Post.{Created}
use target_syslibs.Dma.Create.Checks.{aligned_size, PoolResult, bf_sys_dma_pool_create_lem}
use target_syslibs.Dma.Gate.{init, Reach}
use target_syslibs.Dma.Gate
use target_syslibs.Dma.Gate.Alone.{shared}
use target_syslibs.Dma.Gate.Inv.{held}
use target_syslibs.Dma.Gate.Moves.{Reach-Inv}
use target_syslibs.Dma.Gate.Safety.{no_double_allocation}

in_order : (k l : ℕ) → (k < l) ⊎ ((k ≡ l) ⊎ (l < k))
in_order k l = elim (dec_lt k l) [
  | yes lt ↦ inl lt
  | no ge ↦ elim (ℕ_discrete k l) [ yes e ↦ inr (inl e) | no ne ↦ inr (inr (omega arith)) ]
]

module _ {o : Option MapFn} {a : Args} {size : ℕ} {m m' : Machine} {p : Pool}
    (c : Created o a size m p m') (positive : 0 < size) where
  -- The gate starts from what creation leaves.
  shared-init : shared p ≡ (init p.buf_cnt p.pool_buf_ptr).mem
  shared-init = rw (c.all_free, c.valid.open_gate) refl

  slot_lt : (k v : ℕ) → get_elem? p.pool_buf_ptr k ≡ some v → k < a.cnt
  slot_lt k v e = omega (arith, lt_of_get_elem? p.pool_buf_ptr k v e, c.valid.slots, c.buf_cnt)

  place :
      (k v : ℕ)
      → get_elem? p.pool_buf_ptr k ≡ some v
      → v ≡ c.base + header_for size a.cnt + k * size
  place k v e = let there = c.buffer k (slot_lt k v e) in cc

  -- Of two buffers the one with the smaller number lies below the other.
  below :
      (k l v w : ℕ)
      → get_elem? p.pool_buf_ptr k ≡ some v
      → get_elem? p.pool_buf_ptr l ≡ some w
      → k < l
      → v + size ≤ w
  below k l v w at_k at_l lt = omega (arith, place k v at_k, place l w at_l, scaled)
    where
      scaled : k * size + size ≤ l * size
      scaled = grind arith

  one_slot :
      (v k l : ℕ)
      → get_elem? p.pool_buf_ptr k ≡ some v
      → get_elem? p.pool_buf_ptr l ≡ some v
      → k ≡ l
  one_slot v k l at_k at_l = elim (in_order k l) [
    | inl lt ↦ absurd (omega (arith, below k l v v at_k at_l lt))
    | inr (inl e) ↦ e
    | inr (inr gt) ↦ absurd (omega (arith, below l k v v at_l at_k gt))
  ]

  module _ {n : ℕ} {s : Gate.System} (r : Reach n p.buf_cnt p.pool_buf_ptr s) where
    slot : (i v : ℕ) → i < n → 0 < held v (s.pc i) → (k : ℕ) × (get_elem? p.pool_buf_ptr k ≡ some v)
    slot i v hi mine =
        get_elem?-count v p.pool_buf_ptr
          (omega (arith, (Reach-Inv c.valid.slots r).owners v, le-tally (held v) n s.pc i hi))

    one_owner : (i j v : ℕ) → i < n → j < n → 0 < held v (s.pc i) → 0 < held v (s.pc j) → i ≡ j
    one_owner i j v hi hj mine yours =
        no_double_allocation c.valid.slots r (λ b. count-once b p.pool_buf_ptr (one_slot b)) i j v
          hi hj mine yours

    -- A buffer that is held lies behind the header in the mapping.
    behind :
        (i v : ℕ)
        → i < n
        → 0 < held v (s.pc i)
        → (c.base + header_for size a.cnt ≤ v)
          × (v + size ≤ c.base + p.num_huge_pages * huge_page_size)
    behind i v hi mine =
        (omega (arith, place k v at_k), omega (arith, place k v at_k, c.inside, end_of))
      where
        k : ℕ
        k = (slot i v hi mine).0

        at_k : get_elem? p.pool_buf_ptr k ≡ some v
        at_k = (slot i v hi mine).1

        end_of : k * size + size ≤ size * a.cnt
        end_of = let lt = slot_lt k v at_k in grind arith

    apart :
        (i j v w : ℕ)
        → i < n
        → j < n
        → 0 < held v (s.pc i)
        → 0 < held w (s.pc j)
        → (i ≢ j) ⊎ (v ≢ w)
        → (v + size ≤ w) ⊎ (w + size ≤ v)
    apart i j v w hi hj mine yours differ = elim (in_order k l) [
      | inl lt ↦ inl (below k l v w at_k at_l lt)
      | inr (inl e) ↦ absurd (both e)
      | inr (inr gt) ↦ inr (below l k w v at_l at_k gt)
    ]
      where
        k : ℕ
        k = (slot i v hi mine).0

        at_k : get_elem? p.pool_buf_ptr k ≡ some v
        at_k = (slot i v hi mine).1

        l : ℕ
        l = (slot j w hj yours).0

        at_l : get_elem? p.pool_buf_ptr l ≡ some w
        at_l = (slot j w hj yours).1

        same_buffer : k ≡ l → v ≡ w
        same_buffer e = cc (at_k, at_l, e)

        both : k ≡ l → ⊥
        both e = elim differ [
          | inl other ↦ other (one_owner i j v hi hj mine (rw (sym (same_buffer e)) at yours))
          | inr ne ↦ ne (same_buffer e)
        ]

    -- Two holdings are the same, or their buffers have no byte in common.
    same_or_apart :
        (i j v w : ℕ)
        → i < n
        → j < n
        → 0 < held v (s.pc i)
        → 0 < held w (s.pc j)
        → ((i ≡ j) × (v ≡ w)) ⊎ ((v + size ≤ w) ⊎ (w + size ≤ v))
    same_or_apart i j v w hi hj mine yours = elim (ℕ_discrete i j) [
      | no other ↦ inr (apart i j v w hi hj mine yours (inl other))
      | yes same ↦ elim (ℕ_discrete v w) [
        | no other ↦ inr (apart i j v w hi hj mine yours (inr other))
        | yes one ↦ inl (same, one)
      ]
    ]

module _ {s : System} (lawful : IsLawful s) (a : Args) (m m₁ : Machine) (p : Pool)
    (int : a.cnt < 2 ^ 32) (unsigned : a.align < 2 ^ 32)
    (made : bf_sys_dma_pool_create s a m ≡ done (some p, m₁)) (positive : 0 < p.buf_size) where
  created : Created s.map_fn a (aligned_size a) m p m₁
  created =
      (subst (Ends (PoolResult s.map_fn a m)) made
        (bf_sys_dma_pool_create_lem lawful a m int unsigned)).0

  -- On a lawful system, when pool creation returns a pool with buffers of a positive size, and the
  -- threads start from it: whatever the interleaving, if the threads `i` and `j`, which may be one,
  -- hold the buffers `v` and `w`, which may be one, then the words that the threads share were those
  -- that a run starts from, `v` lies behind the header in the new mapping, and either it is one
  -- holding, `i` being `j` and `v` being `w`, or the two buffers have no byte in common.
  pub buffers_apart :
      {n : ℕ} {t : Gate.System} (r : Reach n p.buf_cnt p.pool_buf_ptr t) (i j v w : ℕ)
      → i < n
      → j < n
      → 0 < held v (t.pc i)
      → 0 < held w (t.pc j)
      → (shared p ≡ (init p.buf_cnt p.pool_buf_ptr).mem)
        × (base : ℕ) × (m₁.regions
            ≡ record { base = base; len = p.num_huge_pages * huge_page_size } ∷ m.regions)
        × (base + p.pool_hdr_offset ≤ v)
        × (v + p.buf_size ≤ base + p.num_huge_pages * huge_page_size)
        × (((i ≡ j) × (v ≡ w)) ⊎ ((v + p.buf_size ≤ w) ⊎ (w + p.buf_size ≤ v)))
  buffers_apart r i j v w hi hj mine yours =
      let (above, inside) = behind created sized r i v hi mine in
      (
        shared-init created sized,
        created.base,
        created.regions,
        omega (arith, above, created.header),
        omega (arith, inside, created.buf_size),
        rw (created.buf_size) (same_or_apart created sized r i j v w hi hj mine yours),
      )
    where
      sized : 0 < aligned_size a
      sized = omega (arith, created.buf_size)
