-- ===== src/Thread/Reports.antt =====
-- What the threads that a caller starts and joins report to it.
use target_syslibs.Base.{
  ℕ, ◌≡◌, ◌≢◌, refl, sym, ap, ◌∙◌, inl, inr, List, [], ◌∷◌, if◌then◌else◌, ◌==◌, map, ◌++◌, eq→==,
  ne→not-==, ◌⊎◌,
}
use target_syslibs.Base.Outcome.{Outcome, done, ◌>>=◌}
use target_syslibs.Thread.{Library, bf_sys_thread_create, bf_sys_thread_exit, bf_sys_thread_join}
use target_syslibs.Thread.Posix.{Life, unused, running, finished, View, Becomes, IsPosix}

module _ {W : Type 0} (t : Library W) where
  -- Start a thread for each argument, until one cannot be started: the handles.
  unfoldable pub start_all : (fn : ℕ) → List ℕ → W → Outcome (List ℕ × W)
  unfolding bf_sys_thread_create
  start_all fn [] w = done ([], w)
  start_all fn (a ∷ args) w = do
    (r, w₁) ← bf_sys_thread_create t fn a 0 w
    let rest = start_all fn args w₁ in
        if r.0 == 0 then (do (hs, w₂) ← rest; done (r.1 ∷ hs, w₂)) else done ([], w₁)

  -- What a thread that runs `fn` on `arg` does when its function has returned: it ends with the value.
  ended : (value : (fn arg : ℕ) → ℕ) (l : Life) (h : ℕ) → W → W
  unfolding bf_sys_thread_exit
  ended value (running fn arg) h w = bf_sys_thread_exit t h (value fn arg) w
  ended value _ h w = w

  -- The threads end in order.
  unfoldable pub exit_all : (v : View W) (value : (fn arg : ℕ) → ℕ) → List ℕ → W → W
  unfolding ended
  exit_all v value [] w = w
  exit_all v value (h ∷ hs) w = exit_all v value hs (ended value (v w h) h w)

  -- The thread `i` joins them in order: what they report.
  unfoldable pub join_all : (i : ℕ) → List ℕ → W → Outcome (List ℕ × W)
  unfolding bf_sys_thread_join
  join_all i [] w = done ([], w)
  join_all i (h ∷ hs) w = do
    (r, w₁) ← bf_sys_thread_join t i h w
    (ss, w₂) ← join_all i hs w₁
    done (r.1 ∷ ss, w₂)

abbrev NotIn : ℕ → List ℕ → Type 0
NotIn j [] = Unit {0}
NotIn j (h ∷ hs) = (j ≢ h) × NotIn j hs

-- The threads `hs` are different, and there is one for each of `xs`, at the stage of it.
abbrev Are : (stage : ℕ → Life) (l : ℕ → Life) (hs xs : List ℕ) → Type 0
Are stage l [] [] = Unit {0}
Are stage l (h ∷ hs) (x ∷ xs) = (l h ≡ stage x) × NotIn h hs × Are stage l hs xs
Are stage l _ _ = ⊥

Are-Becomes :
    {W : Type 0} {v : View W} {w w' : W} {h : ℕ} {l : Life} (stage : ℕ → Life)
    → Becomes v w h l w'
    → (hs xs : List ℕ) → NotIn h hs
    → Are stage (v w) hs xs
    → Are stage (v w') hs xs
Are-Becomes stage b [] [] n a = tt
Are-Becomes stage b [] (x ∷ xs) n a = elim a [ ]
Are-Becomes stage b (k ∷ ks) [] n a = elim a [ ]
Are-Becomes stage b (k ∷ ks) (x ∷ xs) (ne, n) (e, d, a) =
    (b.others k (λ p. ne (sym p)) ∙ e, d, Are-Becomes stage b ks xs n a)

-- No argument is left, or the attempt to start a thread for the first of those left returned an error.
abbrev pub NoneOrRefused : {W : Type 0} → Library W → (fn : ℕ) (left : List ℕ) → W → Type 0
NoneOrRefused t fn left w =
    (left ≡ [])
    ⊎ ((a : ℕ) × (rest : List ℕ) × (e h : ℕ) × (left ≡ a ∷ rest)
        × (e ≢ 0)
        × (bf_sys_thread_create t fn a 0 w ≡ done ((e, h), w)))

-- What `start_all` leaves: its threads run the function on their arguments, and those of before go on.
record Started {W : Type 0} (t : Library W) (v : View W) (fn : ℕ) (args : List ℕ) (w : W)
    : Type 0 where
  handles : List ℕ
  served : List ℕ
  left : List ℕ
  after : W
  returns : start_all t fn args w ≡ done (handles, after)
  split : args ≡ served ++ left
  all : NoneOrRefused t fn left after
  run : Are (running fn) (v after) handles served
  keep : (j : ℕ) → v w j ≢ unused → (v after j ≡ v w j) × NotIn j handles

module _ {W : Type 0} {t : Library W} {v : View W} (posix : IsPosix t v) where
  running-ne : {l : Life} {fn arg : ℕ} → l ≡ running fn arg → l ≢ unused
  running-ne e u = cc (sym e ∙ u)

  start_all-Started : (fn : ℕ) (args : List ℕ) (w : W) → Started t v fn args w
  unfolding start_all bf_sys_thread_create
  start_all-Started fn [] w = record {
    handles = [];
    served = [];
    left = [];
    after = w;
    returns = refl;
    split = refl;
    all = inl refl;
    run = tt;
    keep = λ j u. (refl, tt);
  }
  start_all-Started fn (a ∷ args) w =
      let c = posix.creates fn a w in
      elim c.effect [
        | inl (z, free, b) ↦
            let s = start_all-Started fn args c.after in
            record {
              handles = c.handle ∷ s.handles;
              served = a ∷ s.served;
              left = s.left;
              after = s.after;
              returns = rw (c.returns, eq→== c.status 0 z, s.returns) refl;
              split = ap (λ (l : List ℕ). a ∷ l) s.split;
              all = s.all;
              run = let (e, n) = s.keep c.handle (running-ne b.is_now) in (e ∙ b.is_now, n, s.run);
              keep = λ j u.
                  let ne = λ (p : j ≡ c.handle). u (ap (v w) p ∙ free) in
                  let same = b.others j ne in
                  let (e, n) = s.keep j (λ p. u (sym same ∙ p)) in (e ∙ same, (ne, n));
            }
        | inr (nz, same) ↦ record {
          handles = [];
          served = [];
          left = a ∷ args;
          after = w;
          returns = rw (c.returns, ne→not-== c.status 0 nz, same) refl;
          split = refl;
          all = inr (
            a,
            args,
            c.status,
            c.handle,
            refl,
            nz,
            c.returns ∙ ap (λ u. done ((c.status, c.handle), u)) same,
          );
          run = tt;
          keep = λ j u. (refl, tt);
        }
      ]

  module _ (value : (fn arg : ℕ) → ℕ) (fn : ℕ) where
    ended-Becomes :
        (h a : ℕ) (w : W)
        → v w h ≡ running fn a
        → Becomes v w h (finished (value fn a)) (ended t value (v w h) h w)
    unfolding ended bf_sys_thread_exit
    ended-Becomes h a w e = rw e (posix.exits fn a h (value fn a) w e)

    exit_all-other :
        (j : ℕ) (hs xs : List ℕ) (w : W)
        → Are (running fn) (v w) hs xs
        → NotIn j hs
        → v (exit_all t v value hs w) j ≡ v w j
    unfolding exit_all
    exit_all-other j [] xs w a n = refl
    exit_all-other j (h ∷ hs) [] w a n = elim a [ ]
    exit_all-other j (h ∷ hs) (x ∷ xs) w (e, d, a) (ne, n) =
        let b = ended-Becomes h x w e in
        exit_all-other j hs xs (ended t value (v w h) h w) (Are-Becomes (running fn) b hs xs d a) n
        ∙ b.others j ne

    exit_all-Are :
        (hs xs : List ℕ) (w : W)
        → Are (running fn) (v w) hs xs
        → Are (λ x. finished (value fn x)) (v (exit_all t v value hs w)) hs xs
    unfolding exit_all
    exit_all-Are [] [] w a = tt
    exit_all-Are [] (x ∷ xs) w a = elim a [ ]
    exit_all-Are (h ∷ hs) [] w a = elim a [ ]
    exit_all-Are (h ∷ hs) (x ∷ xs) w (e, d, a) =
        let b = ended-Becomes h x w e in
        let a' = Are-Becomes (running fn) b hs xs d a in
        (
          exit_all-other h hs xs (ended t value (v w h) h w) a' d ∙ b.is_now,
          d,
          exit_all-Are hs xs (ended t value (v w h) h w) a',
        )

  join_all-map :
      (i : ℕ) (status : ℕ → ℕ) (hs xs : List ℕ) (w : W)
      → Are (λ x. finished (status x)) (v w) hs xs
      → (w' : W) × (join_all t i hs w ≡ done (map status xs, w'))
  unfolding join_all bf_sys_thread_join
  join_all-map i status [] [] w a = (w, refl)
  join_all-map i status [] (x ∷ xs) w a = elim a [ ]
  join_all-map i status (h ∷ hs) [] w a = elim a [ ]
  join_all-map i status (h ∷ hs) (x ∷ xs) w (e, d, a) =
      let j = posix.joins i h (status x) w e in
      let (w', r) =
        join_all-map i status hs xs j.after
          (Are-Becomes (λ y. finished (status y)) j.effect hs xs d a) in
      (w', rw (j.returns, r) refl)

  -- Over a threads library that does what it documents: a caller that starts a thread for `fn` on
  -- each of `args`, until one cannot be started, gets handles. The arguments split into those that
  -- were served and those left, of which there are none or the system refuses to start a thread for
  -- the first. Once the threads have ended, each with the value of the function that it runs at its
  -- argument, joining the handles succeeds and gives the values of `fn` at the served arguments, in
  -- order.
  pub join-exit :
      (value : (fn arg : ℕ) → ℕ) (i fn : ℕ) (args : List ℕ) (w : W)
      → (hs served left : List ℕ) × (w₁ w₂ : W) × (start_all t fn args w ≡ done (hs, w₁))
        × (args ≡ served ++ left)
        × NoneOrRefused t fn left w₁
        × (join_all t i hs (exit_all t v value hs w₁) ≡ done (map (value fn) served, w₂))
  join-exit value i fn args w =
      let s = start_all-Started fn args w in
      let over = exit_all-Are value fn s.handles s.served s.after s.run in
      let (w₂, joined) =
        join_all-map i (value fn) s.handles s.served (exit_all t v value s.handles s.after) over in
      (s.handles, s.served, s.left, s.after, w₂, s.returns, s.split, s.all, joined)
