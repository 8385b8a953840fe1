-- ===== src/Log/Blocks.antt =====
-- The blocks of the heap that logging has, over any sequence of calls of the functions of
-- src/bf_sal/linux_usr/bf_sys_log.c.
pub mod Laws
mod Tests
use target_syslibs.Base.{
  ℕ, zero, suc, inl, inr, Bool-cases, ◌+◌, Bool, true, false, if◌then◌else◌, ◌≡◌, refl, Option,
  none, some, List, [], ◌∷◌, get_elem?, arith,
}
use target_syslibs.Base.Outcome.{Outcome, done, aborted, faulted, blocked, defined, ◌>>=◌}
use target_syslibs.Log.{
  Env, LogState, take, name_at, freed, bf_sys_log, bf_sys_trace, bf_sys_log_and_trace,
  bf_sys_log_level_set, bf_sys_syslog_level_set, bf_sys_trace_level_set, bf_sys_trace_reset,
  edit_and_reload, log_line, bf_sys_log_zlog_reconfig,
}
use target_syslibs.Log.Strings.{Str, zlog_cfg_file}
use target_syslibs.Log.Init.{
  or_default, bf_sys_log_init, bf_sys_zlog_init, bf_sys_log_close, open_zlog, copy_cfg,
  bf_sys_trace_init, replace_file, bf_sys_strdup,
}

-- The calls that may change the state.
pub data Request : Type 0 where
  init : (arg1 : Option Str) (default_level : ℕ) → Request
  level_set : (mod_index output bf_level : ℕ) → Request
  syslog_level_set : (bf_level : ℕ) → Request
  trace_level_set : (mod_index bf_level : ℕ) → Request
  log trace log_and_trace : (mod_index level : ℕ) → Request
  trace_reset close : Request

-- The state after a call.
unfoldable pub serve : Env → Request → LogState → Outcome LogState
serve env (init a d) st = done (bf_sys_log_init env a d st).1
serve env (level_set m o l) st = bf_sys_log_level_set env m o l st >>= λ (_, s). done s
serve env (syslog_level_set l) st = bf_sys_syslog_level_set env l st >>= λ (_, s). done s
serve env (trace_level_set m l) st = bf_sys_trace_level_set m l st
serve env (log m l) st = bf_sys_log env m l st >>= λ (_, s). done s
serve env (trace m l) st = bf_sys_trace m l st >>= λ (_, s). done s
serve env (log_and_trace m l) st = bf_sys_log_and_trace env m l st >>= λ (_, s). done s
serve env trace_reset st = done (bf_sys_trace_reset st).1
serve env close st = done (bf_sys_log_close st).1

-- The answers of zlog, the shell and the heap may be others at each call.
unfoldable pub serve_all : List (Env × Request) → LogState → Outcome LogState
unfolding serve
serve_all [] st = done st
serve_all ((env, q) ∷ qs) st = serve env q st >>= serve_all qs

-- The blocks that logging has while `f` is the current file.
abbrev pub held : Option Str → ℕ
held none = 0
held (some f) = 1

-- Besides `n` blocks of others there is that of the file's name, if there is one.
abbrev pub Balanced : (n : ℕ) → LogState → Type 0
Balanced n st = st.blocks ≡ n + held st.cur_log_file

-- The call returns something with the property, unless it does what is undefined.
abbrev pub Returns : {A : Type 0} → (A → Type 0) → Outcome A → Type 0
Returns P (done a) = P a
Returns P faulted = Unit
Returns P _ = ⊥
