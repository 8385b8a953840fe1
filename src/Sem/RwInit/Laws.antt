-- ===== src/Sem/RwInit/Laws.antt =====
-- Init takes three blocks and three objects or nothing, and delete gives them back.
use target_syslibs.Base.{
  ℕ, ◌≡◌, inl, inr, refl, false, none, some, Option-cases, List, ◌∷◌, ◌==◌, eq→==, ne→not-==,
  ℕ_discrete, arith,
}
use target_syslibs.Base.Outcome.{done}
use target_syslibs.Sem.Store.{Store, plain_mutex, condition, Library, IsLawful, minus_one, is_in}
use target_syslibs.Sem.RwInit.{RwLock, init_write, init_read, init_mutex}
use target_syslibs.Sem.RwInit.Ready.{InitResult, ready, refused}

not_first :
    (x a : ℕ) (xs : List ℕ) → is_in a (x ∷ xs) ≡ false → ((a == x) ≡ false) × (is_in a xs ≡ false)
not_first x a xs h = ground arith

module _ {lib : Library} (lawful : IsLawful lib) (st : Store) (l : RwLock) (zero_r : l.r_active ≡ 0)
    (zero_w : l.w_active ≡ 0) (zero_rw : l.r_wait ≡ 0) (zero_ww : l.w_wait ≡ 0) where
  -- The store with the mutex, and with both.
  abbrev one : ℕ → Store
  one m = record { heap = m ∷ st.heap; live = m ∷ st.live }

  abbrev two : ℕ → ℕ → Store
  two m r = record { heap = r ∷ m ∷ st.heap; live = r ∷ m ∷ st.live }

  -- The objects that the error paths destroy are alive.
  mutex_below : (m r : ℕ) → (r == m) ≡ false → lib.destroy plain_mutex (two m r) m ≡ 0
  mutex_below m r ne = lawful.destroyed plain_mutex (two m r) m (ground (arith, eq→== m m refl))

  mutex_under :
      (m r : ℕ)
      → (r == m) ≡ false
      → (w : ℕ)
      → lib.destroy plain_mutex (record { heap = w ∷ r ∷ m ∷ st.heap; live = r ∷ m ∷ st.live }) m
        ≡ 0
  mutex_under m r ne w =
      lawful.destroyed plain_mutex (record { heap = w ∷ r ∷ m ∷ st.heap; live = r ∷ m ∷ st.live }) m
        (ground (arith, eq→== m m refl))

  cond_on :
      (r : ℕ) (h : List ℕ) → lib.destroy condition (record { heap = h; live = r ∷ st.live }) r ≡ 0
  cond_on r h =
      lawful.destroyed condition (record { heap = h; live = r ∷ st.live }) r
        (ground (arith, eq→== r r refl))

  write-none :
      (m r : ℕ)
      → (m == 0) ≡ false
      → (r == 0) ≡ false
      → (r == m) ≡ false
      → lib.malloc (two m r) ≡ none
      → init_write lib (record l { mutex = m; read = r }) (two m r)
        ≡ done ((minus_one, record l { mutex = m; read = r; write = 0 }), st)
  unfolding init_write
  write-none m r pm pr ne e =
      ground (arith, mutex_below m r ne, cond_on r (r ∷ st.heap), eq→== m m refl, eq→== r r refl)

  write-bad :
      (m r w x : ℕ)
      → (m == 0) ≡ false
      → (r == 0) ≡ false
      → (r == m) ≡ false
      → (w == 0) ≡ false
      → (w == m) ≡ false
      → (w == r) ≡ false
      → lib.malloc (two m r) ≡ some w
      → lib.init condition (record { heap = w ∷ r ∷ m ∷ st.heap; live = r ∷ m ∷ st.live }) w ≡ x
      → (x == 0) ≡ false
      → init_write lib (record l { mutex = m; read = r }) (two m r)
        ≡ done ((x, record l { mutex = m; read = r; write = w }), st)
  unfolding init_write
  write-bad m r w x pm pr ne pw wm wr e i bad = ground (
    arith,
    mutex_under m r ne w,
    cond_on r (w ∷ r ∷ m ∷ st.heap),
    eq→== m m refl,
    eq→== r r refl,
    eq→== w w refl,
  )

  write-good :
      (m r w : ℕ)
      → lib.malloc (two m r) ≡ some w
      → lib.init condition (record { heap = w ∷ r ∷ m ∷ st.heap; live = r ∷ m ∷ st.live }) w ≡ 0
      → init_write lib (record l { mutex = m; read = r }) (two m r)
        ≡ done (
          (0, record l { mutex = m; read = r; write = w; valid = 1 }),
          record { heap = w ∷ r ∷ m ∷ st.heap; live = w ∷ r ∷ m ∷ st.live },
        )
  unfolding init_write
  write-good m r w e i = ground arith

  write-result :
      (m r : ℕ)
      → (m == 0) ≡ false
      → (r == 0) ≡ false
      → (r == m) ≡ false
      → InitResult st (init_write lib (record l { mutex = m; read = r }) (two m r))
  write-result m r pm pr ne = elim (Option-cases (lib.malloc (two m r))) [
    | inl e ↦ rw (write-none m r pm pr ne e) (refused (omega arith))
    | inr (w, e) ↦
        let (wr, rest) = not_first r w (m ∷ st.heap) (lawful.fresh (two m r) w e) in
        let (wm, _) = not_first m w st.heap rest in
        let store : Store = record { heap = w ∷ r ∷ m ∷ st.heap; live = r ∷ m ∷ st.live } in
        elim (ℕ_discrete (lib.init condition store w) 0) [
          | yes good ↦ rw (write-good m r w e good) (
              ready (record {
                valid = refl;
                r_active = zero_r;
                w_active = zero_w;
                r_wait = zero_rw;
                w_wait = zero_ww;
                heap = refl;
                live = refl;
                not_null = (pm, pr, lawful.not_null (two m r) w e);
                apart = (ne, wm, wr);
              }))
          | no bad ↦
              rw
                (write-bad m r w (lib.init condition store w) pm pr ne
                  (lawful.not_null (two m r) w e) wm wr e refl (ne→not-== _ 0 bad))
                (refused bad)
        ]
  ]

  mutex_alone :
      (h : List ℕ) (m : ℕ) → lib.destroy plain_mutex (record { heap = h; live = m ∷ st.live }) m ≡ 0
  mutex_alone h m =
      lawful.destroyed plain_mutex (record { heap = h; live = m ∷ st.live }) m
        (ground (arith, eq→== m m refl))

  read-none :
      (m : ℕ)
      → (m == 0) ≡ false
      → lib.malloc (one m) ≡ none
      → init_read lib (record l { mutex = m }) (one m)
        ≡ done ((minus_one, record l { mutex = m; read = 0 }), st)
  unfolding init_read
  read-none m pm e = ground (arith, mutex_alone (m ∷ st.heap) m, eq→== m m refl)

  read-bad :
      (m r x : ℕ)
      → (m == 0) ≡ false
      → (r == 0) ≡ false
      → (r == m) ≡ false
      → lib.malloc (one m) ≡ some r
      → lib.init condition (record { heap = r ∷ m ∷ st.heap; live = m ∷ st.live }) r ≡ x
      → (x == 0) ≡ false
      → init_read lib (record l { mutex = m }) (one m)
        ≡ done ((x, record l { mutex = m; read = r }), st)
  unfolding init_read
  read-bad m r x pm pr ne e i bad =
      ground (arith, mutex_alone (r ∷ m ∷ st.heap) m, eq→== m m refl, eq→== r r refl)

  read-good :
      (m r : ℕ)
      → lib.malloc (one m) ≡ some r
      → lib.init condition (record { heap = r ∷ m ∷ st.heap; live = m ∷ st.live }) r ≡ 0
      → init_read lib (record l { mutex = m }) (one m)
        ≡ init_write lib (record l { mutex = m; read = r }) (two m r)
  unfolding init_read
  read-good m r e i = ground arith

  read-result :
      (m : ℕ) → (m == 0) ≡ false → InitResult st (init_read lib (record l { mutex = m }) (one m))
  read-result m pm = elim (Option-cases (lib.malloc (one m))) [
    | inl e ↦ rw (read-none m pm e) (refused (omega arith))
    | inr (r, e) ↦
        let (rm, _) = not_first m r st.heap (lawful.fresh (one m) r e) in
        let pr = lawful.not_null (one m) r e in
        let store : Store = record { heap = r ∷ m ∷ st.heap; live = m ∷ st.live } in
        elim (ℕ_discrete (lib.init condition store r) 0) [
          | yes good ↦ rw (read-good m r e good) (write-result m r pm pr rm)
          | no bad ↦
              rw (read-bad m r (lib.init condition store r) pm pr rm e refl (ne→not-== _ 0 bad))
                (refused bad)
        ]
  ]

  mutex-none :
      lib.malloc st ≡ none → init_mutex lib l st ≡ done ((minus_one, record l { mutex = 0 }), st)
  unfolding init_mutex
  mutex-none e = ground arith

  mutex-bad :
      (m x : ℕ)
      → (m == 0) ≡ false
      → lib.malloc st ≡ some m
      → lib.init plain_mutex (record st { heap = m ∷ st.heap }) m ≡ x
      → (x == 0) ≡ false
      → init_mutex lib l st ≡ done ((x, record l { mutex = m }), st)
  unfolding init_mutex
  mutex-bad m x pm e i bad = ground (arith, eq→== m m refl)

  mutex-good :
      (m : ℕ)
      → lib.malloc st ≡ some m
      → lib.init plain_mutex (record st { heap = m ∷ st.heap }) m ≡ 0
      → init_mutex lib l st ≡ init_read lib (record l { mutex = m }) (one m)
  unfolding init_mutex
  mutex-good m e i = ground arith

  pub init_mutex-result : InitResult st (init_mutex lib l st)
  init_mutex-result = elim (Option-cases (lib.malloc st)) [
    | inl e ↦ rw (mutex-none e) (refused (omega arith))
    | inr (m, e) ↦
        let pm = lawful.not_null st m e in
        elim (ℕ_discrete (lib.init plain_mutex (record st { heap = m ∷ st.heap }) m) 0) [
          | yes good ↦ rw (mutex-good m e good) (read-result m pm)
          | no bad ↦
              rw
                (mutex-bad m (lib.init plain_mutex (record st { heap = m ∷ st.heap }) m) pm e refl
                  (ne→not-== _ 0 bad))
                (refused bad)
        ]
  ]
