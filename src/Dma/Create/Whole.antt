-- ===== src/Dma/Create/Whole.antt =====
-- `bf_sys_dma_pool_create` as a whole: success gives a pool in good order, and -1 changes nothing.
use native.Mathlib.Nat.{mod-eq_of_lt}
use mathlib.Core.Path.{subst}
use target_syslibs.Base.{
  ℕ, ◌+◌, ◌*◌, ◌/◌, ◌^◌, ◌≤◌, ◌<◌, ◌≡◌, refl, sym, ap, ◌∙◌, Bool, false, Option, none, some, [],
  ◌∷◌, eq→==, arith,
}
use target_syslibs.Base.Outcome.{done}
use target_syslibs.Base.Words.{add64, sub64, mul64, sign_extend}
use target_syslibs.Dma.Align.{huge_page_size, align_to_bf_page_size}
use target_syslibs.Dma.Pool.{Pool}
use target_syslibs.Dma.Geometry.{IsRequest, mapping_len_bounds, header_for_bounds}
use target_syslibs.Dma.Machine.{
  Machine, System, M, ◌>>=◌, pure, is_in, bf_sys_free, bf_sys_calloc, load,
}
use target_syslibs.Dma.Machine.Lawful.{IsLawful}
use target_syslibs.Dma.Machine.Laws.{
  Ends, >>=-Ends, >>=-step, with_block, Calloced, bf_sys_calloc-Ends, bf_sys_free-last,
  bf_sys_free-below,
}
use target_syslibs.Dma.Create.{
  Args, header_for, map_pool, reserve_pool, give_up, alloc_huge_pages, log_pool,
}
use target_syslibs.Dma.Create.Steps.{with_region, Mapped, alloc_huge_pages-Ends}
use target_syslibs.Dma.Create.Post.{CreateResult}
use target_syslibs.Dma.Create.Filled.{Placed}
use target_syslibs.Dma.Create.Success.{log_pool-Ends}

-- Both blocks are freed in the order of their allocation.
give_up-two :
    (m : Machine) (a b : ℕ)
    → 0 < a
    → 0 < b
    → is_in b (a ∷ m.heap) ≡ false
    → give_up (a ∷ b ∷ []) (with_block (with_block m a) b) ≡ done (none, m)
unfolding give_up
give_up-two m a b pa pb new =
    >>=-step (bf_sys_free a) (λ _. give_up (b ∷ [])) (with_block (with_block m a) b)
      (with_block m b) tt (bf_sys_free-below a b m pa new)
    ∙ >>=-step (bf_sys_free b) (λ _. give_up []) (with_block m b) m tt (bf_sys_free-last b m pb)

give_up-one : (m : Machine) (a : ℕ) → 0 < a → give_up (a ∷ []) (with_block m a) ≡ done (none, m)
unfolding give_up
give_up-one m a pos =
    >>=-step (bf_sys_free a) (λ _. give_up []) (with_block m a) m tt (bf_sys_free-last a m pos)

module _ {s : System} (lawful : IsLawful s) (a : Args) (size self queue_block : ℕ) (m : Machine)
    (req : IsRequest size a.cnt) (self_pos : 0 < self) (queue_pos : 0 < queue_block)
    (queue_new : is_in queue_block (self ∷ m.heap) ≡ false) where
  abbrev pub reserved : Machine
  reserved = with_block (with_block m self) queue_block

  abbrev pub total : ℕ
  total = mul64 size (sign_extend a.cnt)

  abbrev pub len : ℕ
  len = align_to_bf_page_size (add64 total (header_for size a.cnt))

  len_num : len / huge_page_size * huge_page_size ≡ len
  len_num = omega (arith, (mapping_len_bounds req).1)

  pub placed :
      (b : ℕ) (huge : Bool)
      → s.mmap reserved huge len ≡ some b
      → Placed a size self queue_block b (len / huge_page_size) m (with_region reserved b len)
  placed b huge e = record {
    base_aligned = lawful.map_aligned reserved huge len b e;
    base_pos = user.0;
    req = req;
    fits = omega (arith, len_num, (mapping_len_bounds req).0);
    in_memory = omega (arith, len_num, user);
    heap = refl;
    regions = rw len_num;
    bus = refl;
    stored = rw (eq→== b b refl, len_num);
    no_block =
        lawful.map_no_block reserved huge len b (b + header_for size a.cnt) e (omega arith)
          (omega (arith, (mapping_len_bounds req).0));
    self_pos = self_pos;
    queue_pos = queue_pos;
    queue_new = queue_new;
  }
    where
      user : (0 < b) × (0 < len) × (b + len < 2 ^ 47)
      user = lawful.map_user reserved huge len b e

  pub stored_len :
      (b : ℕ) (huge : Bool)
      → s.mmap reserved huge len ≡ some b
      → (with_region reserved b len).word
          (sub64 (b + header_for size a.cnt) (header_for size a.cnt))
        ≡ len / huge_page_size * huge_page_size
  stored_len b huge e =
      ap (with_region reserved b len).word {y = b}
        (omega (arith, header_for_bounds req, lawful.map_user reserved huge len b e))
      ∙ (rw (eq→== b b refl) (sym len_num))

  -- The length is read back from where the mapping starts.
  after_map :
      (b : ℕ) (huge : Bool) (v : ℕ) (m₁ : Machine)
      → s.mmap reserved huge len ≡ some b
      → v ≡ add64 b (header_for size a.cnt)
      → m₁ ≡ with_region reserved b len
      → Ends (CreateResult s.map_fn a size m) (
          log_pool s a size self queue_block v
            (header_for size a.cnt)
            (m₁.word (sub64 v (header_for size a.cnt)))
            m₁)
  after_map b huge v m₁ e ev em =
      rw (place, em)
        (subst
          (λ n. Ends (CreateResult s.map_fn a size m) (
            log_pool s a size self queue_block (b + header_for size a.cnt) (header_for size a.cnt) n
              (with_region reserved b len)))
          (sym (stored_len b huge e)) (log_pool-Ends lawful (placed b huge e)))
    where
      place : v ≡ b + header_for size a.cnt
      place =
          ev
          ∙ mod-eq_of_lt
              (omega (arith, header_for_bounds req, lawful.map_user reserved huge len b e))

  map_pool-Ends :
      Ends (CreateResult s.map_fn a size m) (map_pool s a size self queue_block reserved)
  unfolding map_pool
  map_pool-Ends =
      >>=-Ends (Mapped s reserved total (header_for size a.cnt)) (CreateResult s.map_fn a size m)
        (alloc_huge_pages s total (header_for size a.cnt))
        (λ mapped. elim mapped [
          | none ↦ give_up (self ∷ queue_block ∷ [])
          | some v ↦ load (sub64 v (header_for size a.cnt)) >>= λ n.
              log_pool s a size self queue_block v (header_for size a.cnt) n
        ])
        reserved (alloc_huge_pages-Ends s total (header_for size a.cnt) reserved) after
    where
      after :
          (mapped : Option ℕ) (m₁ : Machine)
          → Mapped s reserved total (header_for size a.cnt) mapped m₁
          → Ends (CreateResult s.map_fn a size m) (
              (elim mapped as (λ _. M (Option Pool)) [
                | none ↦ give_up (self ∷ queue_block ∷ [])
                | some v ↦ load (sub64 v (header_for size a.cnt)) >>= λ n.
                    log_pool s a size self queue_block v (header_for size a.cnt) n
              ])
                m₁)
      after none m₁ e = rw (e, give_up-two m self queue_block self_pos queue_pos queue_new) refl
      after (some v) m₁ (b, huge, e, ev, em) = after_map b huge v m₁ e ev em

-- An array of more than `2 ^ 31` pointers is refused, so a negative count is.
calloc_int :
    {s : System} (lawful : IsLawful s) (m : Machine) (cnt q : ℕ)
    → cnt < 2 ^ 32
    → s.calloc m (sign_extend cnt) 8 ≡ some q
    → cnt < 2 ^ 31
calloc_int lawful m cnt q lt e = ground (arith, lawful.block_fits m (sign_extend cnt) 8 q e)

module _ {s : System} (lawful : IsLawful s) (a : Args) (size : ℕ) (m : Machine)
    (small : size ≤ huge_page_size) (int : a.cnt < 2 ^ 32) where
  abbrev pub second_part : ℕ → Option ℕ → M (Option Pool)
  second_part self second = elim second [
    | none ↦ give_up (self ∷ [])
    | some queue_block ↦ map_pool s a size self queue_block
  ]

  second_part-Ends :
      (self : ℕ)
      → 0 < self
      → (second : Option ℕ) (m₁ : Machine)
      → Calloced s (with_block m self) (sign_extend a.cnt) 8 second m₁
      → Ends (CreateResult s.map_fn a size m) (second_part self second m₁)
  second_part-Ends self pos none m₁ e = rw (e, give_up-one m self pos) refl
  second_part-Ends self pos (some q) m₁ (e, em) = rw em (
      map_pool-Ends lawful a size self q m
        (record { small = small; count = calloc_int lawful (with_block m self) a.cnt q int e }) pos
        (lawful.block_pos (with_block m self) (sign_extend a.cnt) 8 q e)
        (lawful.block_new (with_block m self) (sign_extend a.cnt) 8 q e))

  first_part-Ends :
      (first : Option ℕ) (m₁ : Machine)
      → Calloced s m 1 s.pool_bytes first m₁
      → Ends (CreateResult s.map_fn a size m) (
          (elim first as (λ _. M (Option Pool)) [
            | none ↦ pure none
            | some self ↦ bf_sys_calloc s (sign_extend a.cnt) 8 >>= second_part self
          ])
            m₁)
  first_part-Ends none m₁ e = e
  first_part-Ends (some self) m₁ (e, em) = rw em (
      >>=-Ends (Calloced s (with_block m self) (sign_extend a.cnt) 8)
        (CreateResult s.map_fn a size m) (bf_sys_calloc s (sign_extend a.cnt) 8) (second_part self)
        (with_block m self) (bf_sys_calloc-Ends s (sign_extend a.cnt) 8 (with_block m self))
        (second_part-Ends self (lawful.block_pos m 1 s.pool_bytes self e)))

  pub reserve_pool-Ends : Ends (CreateResult s.map_fn a size m) (reserve_pool s a size m)
  unfolding reserve_pool
  reserve_pool-Ends =
      >>=-Ends (Calloced s m 1 s.pool_bytes) (CreateResult s.map_fn a size m)
        (bf_sys_calloc s 1 s.pool_bytes)
        (λ first. elim first [
          | none ↦ pure none
          | some self ↦ bf_sys_calloc s (sign_extend a.cnt) 8 >>= second_part self
        ])
        m (bf_sys_calloc-Ends s 1 s.pool_bytes m) first_part-Ends
