-- ===== src/Timer/Watch/Tasks.antt =====
-- What a thread knows of the watcher that it works on, and what keeps it.
use target_syslibs.Base.{ℕ, ◌≡◌, ◌≢◌, sym, ◌∙◌, Bool, true, false, Option, some, ℕ_discrete, arith}
use target_syslibs.Base.Threads.{assign, assign_same, assign_other}
use target_syslibs.Timer.Watch.{Task, no_task, runs, frees}

-- The thread that works on a watcher owns it, and nobody uses a watcher that is about to be freed.
abbrev pub Fits : Bool → (ℕ → Option ℕ) → (ℕ → Bool) → (ℕ → Bool) → ℕ → Task → Type 0
Fits inited owner active pending i no_task = Unit
Fits inited owner active pending i (runs c w) = (owner w ≡ some i) × (inited ≡ true)
Fits inited owner active pending i (frees w) =
    (owner w ≡ some i) × (active w ≡ false) × (pending w ≡ false)

-- Changes at a watcher that the thread does not own.
module _ (b : Bool) (o : ℕ → Option ℕ) (a p : ℕ → Bool) (j w : ℕ) (foreign : o w ≢ some j) where
  other : (v : ℕ) → o v ≡ some j → w ≢ v
  other v e same = foreign (rw same e)

  pub Fits-owner : (x : Option ℕ) (t : Task) → Fits b o a p j t → Fits b (assign o w x) a p j t
  Fits-owner x no_task f = tt
  Fits-owner x (runs c v) (f, g) = (assign_other o w v x (other v f) ∙ f, g)
  Fits-owner x (frees v) (f, g, h) = (assign_other o w v x (other v f) ∙ f, g, h)

  pub Fits-active : (x : Bool) (t : Task) → Fits b o a p j t → Fits b o (assign a w x) p j t
  Fits-active x no_task f = tt
  Fits-active x (runs c v) f = f
  Fits-active x (frees v) (f, g, h) = (f, assign_other a w v x (other v f) ∙ g, h)

-- Changes that no thread minds: the loop is set up, a timer is stopped, and one that is active expires.
module _ (b : Bool) (o : ℕ → Option ℕ) (a p : ℕ → Bool) (j w : ℕ) where
  pub Fits-set :
      (t : Task) (b' : Bool) → (b ≡ true → b' ≡ true) → Fits b o a p j t → Fits b' o a p j t
  Fits-set no_task b' up f = tt
  Fits-set (runs c v) b' up (f, g) = (f, up g)
  Fits-set (frees v) b' up f = f

  pub Fits-stop : (t : Task) → Fits b o a p j t → Fits b o (assign a w false) p j t
  Fits-stop no_task f = tt
  Fits-stop (runs c v) f = f
  Fits-stop (frees v) (f, g, h) = (f, ground arith, h)

  pub Fits-clear : (t : Task) → Fits b o a p j t → Fits b o a (assign p w false) j t
  Fits-clear no_task f = tt
  Fits-clear (runs c v) f = f
  Fits-clear (frees v) (f, g, h) = (f, g, ground arith)

  pub Fits-expire : a w ≡ true → (t : Task) → Fits b o a p j t → Fits b o a (assign p w true) j t
  Fits-expire act no_task f = tt
  Fits-expire act (runs c v) f = f
  Fits-expire act (frees v) (f, g, h) = (f, g, assign_other p w v true differ ∙ h)
    where
      differ : w ≢ v
      differ same = absurd (ground arith)

module _ (b : Bool) (o : ℕ → Option ℕ) (a p : ℕ → Bool) (task : ℕ → Task) (i : ℕ) (t : Task) where
  pub with_task :
      Fits b o a p i t
      → ((j : ℕ) → i ≢ j → Fits b o a p j (task j))
      → (j : ℕ) → Fits b o a p j (assign task i t j)
  with_task mine others j = elim (ℕ_discrete i j) [
    | yes e ↦ rw (sym e, assign_same task i t) mine
    | no d ↦ rw (assign_other task i j t d) (others j d)
  ]

-- Another thread does not own what this one owns.
pub not_mine : (o : ℕ → Option ℕ) (i j w : ℕ) → o w ≡ some i → i ≢ j → o w ≢ some j
not_mine o i j w e d f = d (ground arith)
