-- ===== src/Thread/Posix.antt =====
-- What the threads library documents of creating, ending and joining threads.
use target_syslibs.Base.{ℕ, ◌≡◌, ◌≢◌, ◌⊎◌}
use target_syslibs.Base.Outcome.{Outcome, done}
use target_syslibs.Thread.{Library}

-- A thread runs a function on an argument, and then has a status until it is joined.
pub data Life : Type 0 where
  unused : Life
  running : (fn arg : ℕ) → Life
  finished : (status : ℕ) → Life

-- How the state is read: what a handle stands for.
abbrev pub View : Type 0 → Type 0
View W = W → ℕ → Life

-- The thread `h` is at `l`, and all others are as before.
pub record Becomes {W : Type 0} (v : View W) (w : W) (h : ℕ) (l : Life) (w' : W) : Type 0 where
  pub is_now : v w' h ≡ l
  pub others : (j : ℕ) → j ≢ h → v w' j ≡ v w j

-- A call that begins a thread which runs `fn` on `arg`: it returns, with a new handle or an error
-- number.
pub record Creates {W : Type 0} (v : View W) (fn arg : ℕ) (w : W) (call : Outcome ((ℕ × ℕ) × W))
    : Type 0 where
  pub status : ℕ
  pub handle : ℕ
  pub after : W
  pub returns : call ≡ done ((status, handle), after)
  pub effect :
      ((status ≡ 0) × (v w handle ≡ unused) × Becomes v w handle (running fn arg) after)
      ⊎ ((status ≢ 0) × (after ≡ w))

-- A call that waits for a thread that has ended: it returns 0 and the thread's status, and the handle
-- is free again.
pub record Joins {W : Type 0} (v : View W) (w : W) (h s : ℕ) (call : Outcome ((ℕ × ℕ) × W))
    : Type 0 where
  pub after : W
  pub returns : call ≡ done ((0, s), after)
  pub effect : Becomes v w h unused after

pub record IsPosix {W : Type 0} (t : Library W) (v : View W) : Type 0 where
  pub creates : (fn arg : ℕ) (w : W) → Creates v fn arg w (t.create fn arg w)
  pub exits :
      (fn arg i s : ℕ) (w : W) → v w i ≡ running fn arg → Becomes v w i (finished s) (t.exit i s w)
  pub joins : (i h s : ℕ) (w : W) → v w h ≡ finished s → Joins v w h s (t.join i h w)
