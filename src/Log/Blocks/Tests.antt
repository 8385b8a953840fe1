-- ===== src/Log/Blocks/Tests.antt =====
-- The theorem on the blocks at a start, changes of levels and an end.
use target_syslibs.Base.{◌≡◌, refl, true, false, leb, none, List, [], ◌∷◌}
use target_syslibs.Base.Outcome.{done, ◌>>=◌}
use target_syslibs.Log.{Env, LogState, dest_stdout, bf_sys_log_level_set, bf_sys_syslog_level_set}
use target_syslibs.Log.Init.{bf_sys_log_init, bf_sys_log_close}
use target_syslibs.Log.Strings.{bytes}
use target_syslibs.Log.Toy.{quiet, st}
use target_syslibs.Log.Blocks.{
  Request, init, level_set, syslog_level_set, serve_all, Balanced, Returns,
}
use target_syslibs.Log.Blocks.Laws.{no_leak}

-- There is no copy of the configuration, and the copy command fails.
abbrev refusing : Env
refusing = record quiet {
  malloc = λ n. leb n 120;
  system = λ s. 256;
  has_cfg_copy = false;
  default_cfg = bytes "/etc/zlog-cfg";
}

-- Three blocks are held by others.
abbrev before : LogState
before = record st { cur_log_file = none; blocks = 3 }

-- After a failed start, the copy of the configuration is there.
abbrev copied : Env
copied = record refusing { has_cfg_copy = true }

-- There is no memory for the command of `level_set`.
abbrev requests : List (Env × Request)
requests =
    (refusing, init none 3)
    ∷ (refusing, level_set 4 dest_stdout 5)
    ∷ (copied, init none 2)
    ∷ (quiet, syslog_level_set 2)
    ∷ []

-- They return, and logging has one block.
requests-blocks : (serve_all requests before >>= λ s. done s.blocks) ≡ done 4
unfolding serve_all bf_sys_log_level_set bf_sys_log_init bf_sys_syslog_level_set
requests-blocks = refl

no_leak_example :
    Returns
      (λ (s : LogState). Balanced 3 s × ((bf_sys_log_close s).1.blocks ≡ 3))
      (serve_all requests before)
no_leak_example = no_leak 3 requests before refl
