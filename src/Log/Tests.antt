-- ===== src/Log/Tests.antt =====
-- The theorems on logging at a concrete state.
use target_syslibs.Base.{◌<◌, ◌≤◌, ◌≡◌, ◌≢◌, ◌⊎◌, refl, false, some, [], ◌∷◌, arith}
use target_syslibs.Base.Outcome.{done}
use target_syslibs.Log.{Env, take, join, bf_sys_syslog_level_set}
use target_syslibs.Log.Strings.{Str, bytes, zlog_cfg_file, syslog_command}
use target_syslibs.Log.Level.{syslog_level_set-runs}
use target_syslibs.Log.Toy.{quiet, st}
use target_syslibs.Log.Init.{bf_sys_log_init, started, log_init-copies}

abbrev pipe : Str
pipe = bytes "BF_PIPE"

abbrev debug_name : Str
debug_name = bytes "DEBUG"

syslog_level_set-runs_example :
    (bf_sys_syslog_level_set quiet 5 st
      ≡ done (
        0,
        record st {
          commands = take 99 (join (syslog_command debug_name zlog_cfg_file)) ∷ [];
          reloads = zlog_cfg_file ∷ [];
        },
      ))
    × (((29 ≤ 46)
          × (take 99 (join (syslog_command debug_name zlog_cfg_file))
              ≡ join (syslog_command debug_name zlog_cfg_file)))
        ⊎ ((46 < 29)
            × (take 99 (join (syslog_command debug_name zlog_cfg_file))
                ≢ join (syslog_command debug_name zlog_cfg_file))))
syslog_level_set-runs_example =
    syslog_level_set-runs quiet 5 debug_name zlog_cfg_file st refl refl refl

abbrev user_cfg : Str
user_cfg = bytes "/a"

-- The copy command ends with status 256.
abbrev no_cp : Env
no_cp = record quiet { system = λ s. 256; has_cfg_copy = false }

log_init-copies_example :
    bf_sys_log_init no_cp (some user_cfg) 3 st ≡ (0, started no_cp user_cfg user_cfg 3 st)
log_init-copies_example =
    log_init-copies no_cp user_cfg 3 st refl (λ n. refl) (omega arith) (λ f. refl)
