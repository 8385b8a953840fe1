-- ===== src/Log/Assert.antt =====
-- The macros `bf_sys_assert` and `bf_sys_dbgchk` of include/target-sys/bf_sal/bf_sys_assert.h, and
-- `bf_sys_dbg_mode` of src/bf_sal/linux_usr/bf_sys_sal.c. The depth of the backtrace is a parameter;
-- `none` stands for a NULL of `backtrace_symbols`.
pub mod Laws
mod Tests
use target_syslibs.Base.{
  ℕ, zero, suc, Bool, true, false, not, ◌||◌, Option, none, some, if◌then◌else◌, ◌==◌,
}
use target_syslibs.Base.Outcome.{Outcome, done, assert, ◌>>=◌, ◌>>◌}
use target_syslibs.Log.{Env, LogState, bf_sys_log_and_trace}
use target_syslibs.Log.Modules.{module_number, bf_mod_sys, level_number, bf_log_err}

-- `TARGET_SYS_LIBS_DEBUG_MODE` is a setting of the build.
abbrev pub bf_sys_dbg_mode : (debug : Bool) → ℕ
bf_sys_dbg_mode debug = if debug then 1 else 0

module _ (env : Env) where
  -- The loop over the strings of the backtrace.
  unfoldable pub log_backtrace : ℕ → LogState → Outcome LogState
  log_backtrace zero st = done st
  log_backtrace (suc n) st = do
    (_, st') ← bf_sys_log_and_trace env (module_number bf_mod_sys) (level_number bf_log_err) st
    log_backtrace n st'

  -- What is logged before the `assert`.
  unfoldable pub before_assert : (x : Bool) (symbols : Option ℕ) → LogState → Outcome LogState
  unfolding log_backtrace
  before_assert true symbols st = done st
  before_assert false none st = done st
  before_assert false (some depth) st = log_backtrace depth st

  -- With `NDEBUG`, which the build type RelWithDebInfo of CMakeLists.txt defines, `assert` does
  -- nothing.
  unfoldable pub bf_sys_assert :
      (ndebug x : Bool) (symbols : Option ℕ) → LogState → Outcome LogState
  unfolding before_assert
  bf_sys_assert ndebug x symbols st = do
    st' ← before_assert x symbols st
    assert (ndebug || x)
    done st'

  unfoldable pub bf_sys_dbgchk :
      (ndebug debug x : Bool) (symbols : Option ℕ) → LogState → Outcome LogState
  unfolding bf_sys_assert
  bf_sys_dbgchk ndebug debug x symbols st =
      if not (bf_sys_dbg_mode debug == 0)
      then bf_sys_assert ndebug x symbols st
      else if not x
      then (do
        (_, st') ← bf_sys_log_and_trace env (module_number bf_mod_sys) (level_number bf_log_err) st
        done st')
      else done st
