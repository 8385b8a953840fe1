-- ===== src/Thread/Toy.antt =====
-- A threads library with what `IsPosix` states, for the tests: handles are places in a list, and two
-- threads can be started.
use target_syslibs.Base.{
  ℕ, zero, suc, ◌≡◌, ◌≢◌, refl, sym, ap, ◌∙◌, inl, inr, List, [], ◌∷◌, length, arith,
}
use target_syslibs.Base.Outcome.{Outcome, done, blocked}
use target_syslibs.Thread.{Library}
use target_syslibs.Thread.Posix.{Life, unused, running, finished, Becomes, Creates, IsPosix}

abbrev pub World : Type 0
World = List Life

abbrev pub at : World → ℕ → Life
at [] h = unused
at (l ∷ w) zero = l
at (l ∷ w) (suc h) = at w h

abbrev put : World → ℕ → Life → World
put [] h l = []
put (k ∷ w) zero l = l ∷ w
put (k ∷ w) (suc h) l = k ∷ put w h l

abbrev added : (fn arg : ℕ) → World → World
added fn arg [] = running fn arg ∷ []
added fn arg (l ∷ w) = l ∷ added fn arg w

-- Waiting for the thread `h`, by what it is.
abbrev waited : Life → ℕ → World → Outcome ((ℕ × ℕ) × World)
waited (finished s) h w = done ((0, s), put w h unused)
waited _ h w = blocked

-- The third thread is refused.
abbrev create_in : (fn arg : ℕ) → World → Outcome ((ℕ × ℕ) × World)
create_in fn arg [] = done ((0, 0), added fn arg [])
create_in fn arg (k ∷ []) = done ((0, 1), added fn arg (k ∷ []))
create_in fn arg (k ∷ l ∷ w) = done ((11, 0), k ∷ l ∷ w)

abbrev pub toy : Library World
toy = record {
  create = λ fn arg w. create_in fn arg w;
  exit = λ i status w. put w i (finished status);
  cancel = λ th w. done (0, w);
  detach = λ th w. done (0, w);
  join = λ i th w. waited (at w th) th w;
  self = λ i w. i;
  setname = λ th name w. done (0, w);
  yield = λ i w. done (0, w);
}

at-length : (w : World) → at w (length w) ≡ unused
at-length [] = refl
at-length (l ∷ w) = at-length w

module _ (fn arg : ℕ) where
  at-added : (w : World) → at (added fn arg w) (length w) ≡ running fn arg
  at-added [] = refl
  at-added (l ∷ w) = at-added w

  at-added_other : (w : World) (j : ℕ) → j ≢ length w → at (added fn arg w) j ≡ at w j
  at-added_other [] zero ne = absurd (ne refl)
  at-added_other [] (suc j) ne = refl
  at-added_other (l ∷ w) zero ne = refl
  at-added_other (l ∷ w) (suc j) ne = at-added_other w j (λ e. ne (ap suc e))

at-put : (w : World) (h : ℕ) (l : Life) → at w h ≢ unused → at (put w h l) h ≡ l
at-put [] h l u = absurd (u refl)
at-put (k ∷ w) zero l u = refl
at-put (k ∷ w) (suc h) l u = at-put w h l u

at-put_other : (w : World) (h : ℕ) (l : Life) (j : ℕ) → j ≢ h → at (put w h l) j ≡ at w j
at-put_other [] h l j ne = refl
at-put_other (k ∷ w) zero l zero ne = absurd (ne refl)
at-put_other (k ∷ w) zero l (suc j) ne = refl
at-put_other (k ∷ w) (suc h) l zero ne = refl
at-put_other (k ∷ w) (suc h) l (suc j) ne = at-put_other w h l j (λ e. ne (ap suc e))

put-Becomes :
    (w : World) (h : ℕ) (l k : Life) → k ≢ unused → at w h ≡ k → Becomes at w h l (put w h l)
put-Becomes w h l k u e = record {
  is_now = at-put w h l (λ p. u (sym e ∙ p));
  others = at-put_other w h l;
}

finished-ne : (s : ℕ) → finished s ≢ unused
finished-ne s e = cc e

running-ne : (fn arg : ℕ) → running fn arg ≢ unused
running-ne fn arg e = cc e

toy-Creates : (fn arg : ℕ) (w : World) → Creates at fn arg w (toy.create fn arg w)
toy-Creates fn arg [] = record {
  status = 0;
  handle = 0;
  after = added fn arg [];
  returns = refl;
  effect =
      inl (refl, refl, record { is_now = at-added fn arg []; others = at-added_other fn arg [] });
}
toy-Creates fn arg (k ∷ []) = record {
  status = 0;
  handle = 1;
  after = added fn arg (k ∷ []);
  returns = refl;
  effect = inl (
    refl,
    refl,
    record { is_now = at-added fn arg (k ∷ []); others = at-added_other fn arg (k ∷ []) },
  );
}
toy-Creates fn arg (k ∷ l ∷ w) = record {
  status = 11;
  handle = 0;
  after = k ∷ l ∷ w;
  returns = refl;
  effect = inr (omega arith, refl);
}

pub toy-IsPosix : IsPosix toy at
toy-IsPosix = record {
  creates = toy-Creates;
  exits = λ fn arg i s w e. put-Becomes w i (finished s) (running fn arg) (running-ne fn arg) e;
  joins = λ i h s w e. record {
    after = put w h unused;
    returns = rw e refl;
    effect = put-Becomes w h unused (finished s) (finished-ne s) e;
  };
}
