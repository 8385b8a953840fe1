-- ===== src/Log/Blocks/Laws.antt =====
-- What any sequence of calls keeps of the blocks.
use target_syslibs.Base.{
  ℕ, suc, inl, inr, Bool-cases, Bool, true, false, if◌then◌else◌, ◌≡◌, Option, none, some, List, [],
  ◌∷◌, get_elem?, arith,
}
use target_syslibs.Base.Outcome.{Outcome, done, aborted, faulted, blocked, defined, ◌>>=◌}
use target_syslibs.Log.{
  Env, LogState, take, name_at, freed, bf_sys_log, bf_sys_trace, bf_sys_log_and_trace,
  bf_sys_log_level_set, bf_sys_syslog_level_set, bf_sys_trace_level_set, bf_sys_trace_reset,
  edit_and_reload, log_line, bf_sys_log_zlog_reconfig,
}
use target_syslibs.Log.Strings.{Str, zlog_cfg_file}
use target_syslibs.Log.Init.{
  or_default, bf_sys_log_init, bf_sys_zlog_init, bf_sys_log_close, open_zlog, copy_cfg,
  bf_sys_trace_init, replace_file, bf_sys_strdup,
}
use target_syslibs.Log.Blocks.{
  Request, init, level_set, syslog_level_set, trace_level_set, log, trace, log_and_trace,
  trace_reset, close, serve, serve_all, Balanced, Returns,
}

module _ {A B : Type 0} (P : B → Type 0) where
  Returns-defined :
      (k : A → Outcome B) (x : Option A) → ((a : A) → Returns P (k a)) → Returns P (defined x >>= k)
  Returns-defined k none h = tt
  Returns-defined k (some a) h = h a

  -- A property of what is returned, carried over to what follows.
  Returns-then :
      (Q : A → Type 0) (k : A → Outcome B) (o : Outcome A)
      → Returns Q o
      → ((a : A) → Q a → Returns P (k a))
      → Returns P (o >>= k)
  Returns-then Q k (done a) q h = h a q
  Returns-then Q k faulted q h = tt
  Returns-then Q k aborted q h = elim q [ ]
  Returns-then Q k blocked q h = elim q [ ]

Returns-name_at :
    {B : Type 0} (P : B → Type 0) (k : Str → Outcome B) (n : ℕ) (names : List Str) (i : ℕ)
    → ((s : Str) → Returns P (k s))
    → Returns P (name_at n names i >>= k)
Returns-name_at P k n names i h = named (get_elem? names i)
  where
    named : (x : Option Str) → Returns P ((defined x >>= λ s. done (take n s)) >>= k)
    named none = tt
    named (some s) = h (take n s)

Returns-map :
    {A : Type 0} (P Q : A → Type 0) (o : Outcome A)
    → ((a : A) → Q a → P a)
    → Returns Q o
    → Returns P o
Returns-map P Q (done a) h q = h a q
Returns-map P Q aborted h q = q
Returns-map P Q faulted h q = tt
Returns-map P Q blocked h q = q

Returns-if :
    {A : Type 0} (P : A → Type 0) (c : Bool) (x y : Outcome A)
    → Returns P x
    → Returns P y
    → Returns P (if c then x else y)
Returns-if P true x y p q = p
Returns-if P false x y p q = q

module _ (env : Env) (n : ℕ) where
  open_zlog-Balanced : (st : LogState) → Balanced n st → Balanced n (open_zlog env st).1
  unfolding open_zlog
  open_zlog-Balanced st b = ground arith

  replace_file-Balanced :
      (f : Str) (st : LogState) → Balanced n st → Balanced n (replace_file env f st)
  unfolding replace_file bf_sys_strdup
  replace_file-Balanced f st b = ground arith

  closing : (s : LogState) → Balanced (suc n) s → Balanced n (open_zlog env (freed s)).1
  closing s b = open_zlog-Balanced (freed s) (ground arith)

module _ (env : Env) (n : ℕ) where
  copy_cfg-Balanced :
      (cfg : Str) (st : LogState) → Balanced n st → Balanced n (copy_cfg env cfg st).1
  unfolding copy_cfg
  copy_cfg-Balanced cfg st b = ground (arith, closing env n, replace_file-Balanced env (suc n))

  edit_and_reload-Balanced :
      (output : ℕ) (m l f : Str) (st : LogState)
      → Balanced n st
      → Returns (λ (r : ℕ × LogState). Balanced n r.1) (edit_and_reload env output m l f st)
  unfolding edit_and_reload bf_sys_log_zlog_reconfig
  edit_and_reload-Balanced output m l f st b = ground arith

  level_set-Balanced :
      (m o l : ℕ) (st : LogState)
      → Balanced n st
      → Returns (λ (r : ℕ × LogState). Balanced n r.1) (bf_sys_log_level_set env m o l st)
  unfolding bf_sys_log_level_set
  level_set-Balanced m o l st b =
      search (Returns-if, Returns-defined, Returns-name_at, edit_and_reload-Balanced) depth 8

  syslog-Balanced :
      (l : ℕ) (st : LogState)
      → Balanced n st
      → Returns (Balanced n) (serve env (syslog_level_set l) st)
  unfolding serve bf_sys_syslog_level_set bf_sys_log_zlog_reconfig
  syslog-Balanced l st b = ground arith

  zlog_init-Balanced :
      (a : Option Str) (st : LogState) → Balanced n st → Balanced n (bf_sys_zlog_init env a st).1
  unfolding bf_sys_zlog_init
  zlog_init-Balanced a st b = elim (Bool-cases env.has_cfg_copy) [
    | inl e ↦ rw e (open_zlog-Balanced env n (replace_file env zlog_cfg_file st) replaced)
    | inr e ↦ rw e (
        copy_cfg-Balanced (or_default env.default_cfg a) (replace_file env zlog_cfg_file st)
          replaced)
  ]
    where
      replaced : Balanced n (replace_file env zlog_cfg_file st)
      replaced = replace_file-Balanced env n zlog_cfg_file st b

  serve-Balanced :
      (q : Request) (st : LogState) → Balanced n st → Returns (Balanced n) (serve env q st)
  unfolding serve bf_sys_log bf_sys_trace bf_sys_log_and_trace log_line bf_sys_log_init
      bf_sys_trace_init bf_sys_log_close bf_sys_trace_level_set bf_sys_trace_reset
  serve-Balanced (init a d) st b = zlog_init-Balanced a st b
  serve-Balanced (level_set m o l) st b =
      Returns-then _ _ _ (bf_sys_log_level_set env m o l st) (level_set-Balanced m o l st b)
        (λ r h. h)
  serve-Balanced (syslog_level_set l) st b = syslog-Balanced l st b
  serve-Balanced (trace_level_set m l) st b = ground arith
  serve-Balanced (log m l) st b = ground arith
  serve-Balanced (trace m l) st b = ground arith
  serve-Balanced (log_and_trace m l) st b = ground arith
  serve-Balanced trace_reset st b = b
  serve-Balanced close st b = ground arith

module _ (n : ℕ) where
  serve_all-Balanced :
      (qs : List (Env × Request)) (st : LogState)
      → Balanced n st
      → Returns (Balanced n) (serve_all qs st)
  unfolding serve_all
  serve_all-Balanced [] st b = b
  serve_all-Balanced ((env, q) ∷ qs) st b =
      Returns-then _ _ _ (serve env q st) (serve-Balanced env n q st b) (serve_all-Balanced qs)

  closed : (st : LogState) → Balanced n st → (bf_sys_log_close st).1.blocks ≡ n
  unfolding bf_sys_log_close
  closed st b = ground arith

  -- Take any sequence of calls, each with answers of its own of zlog, of the shell, of `stat` and of
  -- the heap, which within one call depends on the size that is asked for. If logging has the block
  -- of its current file's name and nothing else, then after these calls, failing ones included, it
  -- has that of the file that is then the current one and nothing else, and after `bf_sys_log_close`
  -- none. The calls return unless one does what is undefined.
  pub no_leak :
      (qs : List (Env × Request)) (st : LogState)
      → Balanced n st
      → Returns
          (λ (s : LogState). Balanced n s × ((bf_sys_log_close s).1.blocks ≡ n))
          (serve_all qs st)
  no_leak qs st b =
      Returns-map _ (Balanced n) (serve_all qs st) (λ s h. (h, closed s h))
        (serve_all-Balanced qs st b)
