-- ===== src/Log/Init.antt =====
-- The start and the end of logging, and which configuration file is in use after the start.
use target_syslibs.Base.{
  ℕ, suc, ◌+◌, ◌^◌, ◌<◌, ◌≡◌, inl, inr, refl, true, false, not, ◌||◌, some, ◌∷◌, map, length,
  if◌then◌else◌, lt→ltb, Bool-cases, arith, Option, none, ◌==◌,
}
use target_syslibs.Base.Words.{u32, int_lt}
use target_syslibs.Log.Strings.{Str, zlog_cat_name, zlog_cfg_file, copy_command}
use target_syslibs.Log.Level.{length-join}
use target_syslibs.Log.{Env, LogState, allocated, freed, one_less, negative, join, minus_one}

abbrev pub or_default : Str → Option Str → Str
or_default d none = d
or_default d (some s) = s

unfoldable pub bf_sys_trace_init : ℕ → LogState → ℕ × LogState
bf_sys_trace_init default_level st =
    (0, record st { trace_level = map (λ _. default_level) st.trace_level })

abbrev pub after_free : Option Str → ℕ → ℕ
after_free none n = n
after_free (some f) n = one_less n

-- `if (zlog_cur_log_file) bf_sys_free(zlog_cur_log_file)`
abbrev without_file : LogState → LogState
without_file st = record st { blocks = after_free st.cur_log_file st.blocks }

-- A copy that was made takes a block.
abbrev store_copy : Option Str → LogState → LogState
store_copy none st = record st { cur_log_file = none }
store_copy (some f) st = record (allocated st) { cur_log_file = some f }

module _ (env : Env) where
  -- `bf_sys_strdup` of bf_sys_str.c; `none` is NULL.
  unfoldable pub bf_sys_strdup : Option Str → Option Str
  bf_sys_strdup none = none
  bf_sys_strdup (some s) = if env.malloc (length s + 1) then some s else none

  -- The name that `zlog_cur_log_file` points to is freed, if there is one, and a copy of `name` takes
  -- its place.
  unfoldable pub replace_file : (name : Str) → LogState → LogState
  unfolding bf_sys_strdup
  replace_file name st = store_copy (bf_sys_strdup (some name)) (without_file st)

  -- The part from the test of `zlog_cur_log_file` on.
  unfoldable pub open_zlog : LogState → ℕ × LogState
  open_zlog st = elim st.cur_log_file [
    | none ↦ (minus_one, st)
    | some f ↦
        if not (env.zlog_init f == 0)
        then (minus_one, st)
        else (0, record st { zlog_cat = map env.get_category zlog_cat_name })
  ]

  -- The configuration file is copied by a command; where that fails, the user's file is the current
  -- one. The status of the command is compared with the length of the buffer.
  unfoldable pub copy_cfg : Str → LogState → ℕ × LogState
  unfolding replace_file open_zlog
  copy_cfg cfg st =
      let len = u32 (10 + length cfg + length zlog_cfg_file) in
      let cmd = join (copy_command cfg zlog_cfg_file) in
      let fits = int_lt (length cmd) len in
      let err = if fits then env.system cmd else length cmd in
      let buff = allocated st in
      let run = if fits then record buff { commands = cmd ∷ st.commands } else buff in
      if not (env.malloc len)
      then (minus_one, st)
      else if negative err || not (int_lt err len)
      then open_zlog (freed (replace_file cfg run))
      else open_zlog (freed run)

  unfoldable pub bf_sys_zlog_init : Option Str → LogState → ℕ × LogState
  unfolding replace_file copy_cfg
  bf_sys_zlog_init arg1 st =
      let cfg = or_default env.default_cfg arg1 in
      let st' = replace_file zlog_cfg_file st in
      if env.has_cfg_copy then open_zlog st' else copy_cfg cfg st'

  -- `err |= ...` with the result 0.
  unfoldable pub bf_sys_log_init : (arg1 : Option Str) (default_level : ℕ) → LogState → ℕ × LogState
  unfolding bf_sys_zlog_init bf_sys_trace_init
  bf_sys_log_init arg1 default_level st =
      let (err, st₁) = bf_sys_zlog_init arg1 st in
      let (_, st₂) = bf_sys_trace_init (u32 default_level) st₁ in (err, st₂)

unfoldable pub bf_sys_log_close : LogState → ℕ × LogState
bf_sys_log_close st = (0, record (without_file st) { cur_log_file = none })

-- The state after a start with the file `f`, with the trace levels set, the categories opened, and a
-- block for the name of the file.
abbrev pub started : Env → Str → Str → ℕ → LogState → LogState
started env f cfg trace st = record st {
  cur_log_file = some f;
  trace_level = map (λ _. u32 trace) st.trace_level;
  zlog_cat = map env.get_category zlog_cat_name;
  commands = join (copy_command cfg zlog_cfg_file) ∷ st.commands;
  blocks = suc (after_free st.cur_log_file st.blocks);
}

module _ (env : Env) (cfg : Str) (trace : ℕ) (st : LogState) (no_copy : env.has_cfg_copy ≡ false)
    (memory : (n : ℕ) → env.malloc n ≡ true) (short : length cfg < 2 ^ 28)
    (opens : (f : Str) → env.zlog_init f ≡ 0) where
  command_length :
      length (join (copy_command cfg zlog_cfg_file)) ≡ 4 + length cfg + length zlog_cfg_file
  command_length = omega (arith, length-join (copy_command cfg zlog_cfg_file))

  fits :
      int_lt
        (length (join (copy_command cfg zlog_cfg_file)))
        (u32 (10 + length cfg + length zlog_cfg_file))
      ≡ true
  fits = lt→ltb _ _ (omega (arith, command_length))

  -- If there is no copy of the configuration yet, with memory, a file name shorter than 2^28 and a
  -- zlog that starts, `bf_sys_log_init` runs the copy command whole and returns 0; the copy is in use
  -- if the command's status is not negative and below the length of its buffer, and otherwise the file
  -- that was given.
  pub log_init-copies : bf_sys_log_init env (some cfg) trace st ≡ (
    0,
    started env
        (if negative (env.system (join (copy_command cfg zlog_cfg_file)))
            || not (
                int_lt
                  (env.system (join (copy_command cfg zlog_cfg_file)))
                  (u32 (10 + length cfg + length zlog_cfg_file)))
          then cfg
          else zlog_cfg_file)
        cfg
        trace
        st,
  )
  unfolding bf_sys_log_init
  log_init-copies = elim (Bool-cases (negative status || not (int_lt status len))) [
    | inl e ↦
        rw
          (
            no_copy,
            memory (length zlog_cfg_file + 1),
            memory len,
            fits,
            e,
            memory (length cfg + 1),
            opens cfg,
          )
          refl
    | inr e ↦
        rw (no_copy, memory (length zlog_cfg_file + 1), memory len, fits, e, opens zlog_cfg_file)
          refl
  ]
    where
      status : ℕ
      status = env.system (join (copy_command cfg zlog_cfg_file))

      len : ℕ
      len = u32 (10 + length cfg + length zlog_cfg_file)
