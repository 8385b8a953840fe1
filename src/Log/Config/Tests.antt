-- ===== src/Log/Config/Tests.antt =====
-- The theorems on the configuration file where every module is at WARN.
use target_syslibs.Base.{ℕ, zero, suc, ◌≡◌, refl, some, List, [], ◌∷◌, map, set, get_elem?, arith}
use target_syslibs.Base.Outcome.{done}
use target_syslibs.Log.{dest_stdout, command, bf_sys_log_level_set}
use target_syslibs.Log.Strings.{Str, bytes, zlog_cat_name, zlog_cfg_file}
use target_syslibs.Log.Toy.{quiet, st}
use target_syslibs.Log.Config.{console_line}
use target_syslibs.Log.Config.Edits.{config, IsLevel, level_set-config, pi_takes_pipe}
use target_syslibs.Log.Config.Toy.{toy_shell, toy_shell-DoesEdits}

abbrev warnings : List Str
warnings = map (λ n. bytes "WARN") zlog_cat_name

constant-IsLevel :
    (ns : List Str) (j : ℕ) (l : Str)
    → get_elem? (map (λ n. bytes "WARN") ns) j ≡ some l
    → IsLevel l
constant-IsLevel [] j l e = absurd (ground arith)
constant-IsLevel (n ∷ ns) zero l e = (3, e)
constant-IsLevel (n ∷ ns) (suc j) l e = constant-IsLevel ns j l e

-- `BF_TM` is set to DEBUG.
level_set-config_example :
    (bf_sys_log_level_set quiet 4 dest_stdout 5 st
      ≡ done (
        0,
        record st {
          commands = command dest_stdout (bytes "BF_TM") (bytes "DEBUG") zlog_cfg_file ∷ [];
          reloads = zlog_cfg_file ∷ [];
        },
      ))
    × (toy_shell zlog_cfg_file
          (command dest_stdout (bytes "BF_TM") (bytes "DEBUG") zlog_cfg_file)
          (config zlog_cat_name warnings)
        ≡ config zlog_cat_name (set warnings 4 (bytes "DEBUG")))
level_set-config_example =
    level_set-config (toy_shell zlog_cfg_file) zlog_cfg_file (bytes "DEBUG") 5 warnings
      (toy_shell-DoesEdits zlog_cfg_file) refl refl (constant-IsLevel zlog_cat_name) quiet st refl
      (omega arith) 4 (bytes "BF_TM") refl (omega arith) refl

pi_takes_pipe_example :
    (bf_sys_log_level_set quiet 14 dest_stdout 5 st
      ≡ done (
        0,
        record st {
          commands = command dest_stdout (bytes "BF_PI") (bytes "DEBUG") zlog_cfg_file ∷ [];
          reloads = zlog_cfg_file ∷ [];
        },
      ))
    × (get_elem?
          (toy_shell zlog_cfg_file
            (command dest_stdout (bytes "BF_PI") (bytes "DEBUG") zlog_cfg_file)
            (config zlog_cat_name warnings))
          3
        ≡ some (console_line (bytes "BF_PI") (bytes "DEBUG")))
pi_takes_pipe_example =
    pi_takes_pipe (toy_shell zlog_cfg_file) zlog_cfg_file (bytes "DEBUG") 5 warnings
      (toy_shell-DoesEdits zlog_cfg_file) refl refl (constant-IsLevel zlog_cat_name) quiet st refl
      (omega arith) refl
