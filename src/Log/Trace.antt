-- ===== src/Log/Trace.antt =====
-- The trace levels of the modules, and the numbers that are no module.
use target_syslibs.Base.{
  ℕ, ◌+◌, ◌^◌, ◌≤◌, ◌<◌, ◌≡◌, ◌≢◌, refl, not, ◌||◌, some, if◌then◌else◌, length, get_elem?,
  get_elem?-set_self, get_elem?-set_ne, get_elem?-beyond, lt→ltb, le→leb, lt→not-leb, arith,
}
use target_syslibs.Base.Outcome.{done, faulted, ◌>>=◌}
use target_syslibs.Base.Words.{u32, int_lt}
use target_syslibs.Log.{
  Env, LogState, bf_mod_max, minus_one, bf_get_zlog_level, zlog_would_log_at_level, bf_sys_log,
  bf_sys_trace, bf_sys_log_and_trace, bf_sys_log_is_log_enabled, bf_sys_trace_level_set,
}

-- For a module that exists, after its trace level is set, `bf_sys_log_is_log_enabled` of any level
-- gives 1 if the level is not above the new one or zlog would log it, and otherwise 0.
trace_level_set-is_log_enabled :
    (env : Env) (i new level category : ℕ) (st : LogState)
    → i < bf_mod_max
    → length st.trace_level ≡ bf_mod_max
    → get_elem? st.zlog_cat i ≡ some category
    → (bf_sys_trace_level_set i new st >>= bf_sys_log_is_log_enabled env i level)
      ≡ done (
          if not (int_lt new level)
            || zlog_would_log_at_level env category (bf_get_zlog_level level)
          then 1
          else 0)
unfolding bf_sys_trace_level_set bf_sys_log_is_log_enabled
trace_level_set-is_log_enabled env i new level category st hi full ec =
    rw
      (
        lt→ltb (u32 (i + 2 ^ 31)) (u32 (bf_mod_max + 2 ^ 31)) (omega arith),
        lt→ltb i (length st.trace_level) (omega arith),
        lt→not-leb (2 ^ 31) i (omega arith),
        lt→ltb (u32 (i + 2 ^ 31)) (u32 (bf_mod_max + 2 ^ 31)) (omega arith),
        get_elem?-set_self st.trace_level i new (omega arith),
        ec,
      )
      refl

-- For two modules, setting the trace level of one changes nothing of what `bf_sys_log_is_log_enabled`
-- says of the other.
trace_level_set-other :
    (env : Env) (i j new level : ℕ) (st : LogState)
    → i < bf_mod_max
    → length st.trace_level ≡ bf_mod_max
    → i ≢ j
    → (bf_sys_trace_level_set i new st >>= bf_sys_log_is_log_enabled env j level)
      ≡ bf_sys_log_is_log_enabled env j level st
unfolding bf_sys_trace_level_set bf_sys_log_is_log_enabled
trace_level_set-other env i j new level st hi full ne =
    rw
      (
        lt→ltb (u32 (i + 2 ^ 31)) (u32 (bf_mod_max + 2 ^ 31)) (omega arith),
        lt→ltb i (length st.trace_level) (omega arith),
        get_elem?-set_ne st.trace_level i j new ne,
      )
      refl

-- For a negative module number `bf_sys_log_is_log_enabled` gives -1, while `bf_sys_log`,
-- `bf_sys_trace` and `bf_sys_log_and_trace` read outside their arrays.
negative_module :
    (env : Env) (i level : ℕ) (st : LogState)
    → 2 ^ 31 ≤ i
    → i < 2 ^ 32
    → length st.trace_level ≡ bf_mod_max
    → length st.zlog_cat ≡ bf_mod_max
    → (bf_sys_log_is_log_enabled env i level st ≡ done minus_one)
      × (bf_sys_log env i level st ≡ faulted)
      × (bf_sys_trace i level st ≡ faulted)
      × (bf_sys_log_and_trace env i level st ≡ faulted)
unfolding bf_sys_log_is_log_enabled bf_sys_log bf_sys_trace bf_sys_log_and_trace
negative_module env i level st neg word full_t full_c =
    rw
      (
        lt→ltb (u32 (i + 2 ^ 31)) (u32 (bf_mod_max + 2 ^ 31)) (omega arith),
        le→leb (2 ^ 31) i neg,
        get_elem?-beyond st.trace_level i (omega arith),
        get_elem?-beyond st.zlog_cat i (omega arith),
      )
      (refl, refl, refl, refl)
