-- ===== src/Log/Assert/Laws.antt =====
-- What the checks log, and when they stop the process.
use target_syslibs.Base.{
  ℕ, zero, suc, ◌≡◌, Bool, true, false, Option, none, some, ◌∷◌, if◌then◌else◌, length, get_elem?,
}
use target_syslibs.Base.Outcome.{Outcome, done, aborted}
use target_syslibs.Log.{Env, LogState, error, bf_mod_max, zlog_would_log_at_level}
use target_syslibs.Log.Modules.{module_number, bf_mod_sys}

-- `n` lines of the system module at the level ERROR.
abbrev errors : (category n : ℕ) → LogState → LogState
errors category zero st = st
errors category (suc n) st = errors category n (record st { lines = (category, error) ∷ st.lines })

-- The number of strings in the backtrace.
abbrev pub strings : Option ℕ → ℕ
strings none = 0
strings (some n) = n

-- The tables of the modules, as the static arrays have them, and the category of the system module.
pub record IsConfigured (st : LogState) (category : ℕ) : Type 0 where
  pub traces : length st.trace_level ≡ bf_mod_max
  pub at_sys : get_elem? st.zlog_cat (module_number bf_mod_sys) ≡ some category

module _ (env : Env) (category : ℕ) where
  abbrev would_log : Bool
  would_log = zlog_would_log_at_level env category error

  abbrev pub after : ℕ → LogState → LogState
  after n st = if would_log then errors category n st else st

  -- What is left after a check of a condition that does not hold: the strings of the backtrace, if
  -- there are any, are errors of the system module, and the process goes on only where `NDEBUG` is
  -- defined.
  abbrev pub failed : (ndebug : Bool) (symbols : Option ℕ) → LogState → Outcome LogState
  failed true symbols st = done (after (strings symbols) st)
  failed false symbols st = aborted
