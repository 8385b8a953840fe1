-- ===== src/Log.antt =====
-- src/bf_sal/linux_usr/bf_sys_log.c: logging through zlog, whose configuration file is edited by shell
-- commands, and the trace levels of the modules.
pub mod Strings
pub mod Level
pub mod Trace
pub mod Init
pub mod Config
pub mod Blocks
pub mod Modules
pub mod Assert
mod Toy
mod Tests
use target_syslibs.Base.{
  ℕ, zero, suc, ◌+◌, ◌-◌, ◌*◌, ◌^◌, Bool, true, false, not, ◌&&◌, ◌||◌, Option, none, some, List,
  [], ◌∷◌, ◌++◌, if◌then◌else◌, leb, ltb, ◌==◌, length, get_elem?, set, map, drop,
}
use target_syslibs.Base.Outcome.{Outcome, done, defined, faulted, ◌>>=◌}
use target_syslibs.Base.Words.{u32, int_lt}
use target_syslibs.Log.Strings.{
  Str, zlog_cat_name, zlog_cfg_level_name, zlog_cfg_file, stdout_command, file_command,
  syslog_command, copy_command,
}

abbrev pub bf_mod_max : ℕ
bf_mod_max = 25

abbrev pub bf_log_max : ℕ
bf_log_max = 5

abbrev pub dest_stdout : ℕ
dest_stdout = 1

abbrev pub dest_file : ℕ
dest_file = 4

abbrev pub minus_one : ℕ
minus_one = 2 ^ 32 - 1

abbrev pub negative : ℕ → Bool
negative x = leb (2 ^ 31) x

-- The levels of zlog that the code uses.
pub data ZlogLevel : Type 0 where
  fatal error warn info debug : ZlogLevel

-- zlog, the shell and the heap. Statuses are the patterns of `int`s; `needless` is
-- `zlog_category_needless_level`, and a category is its address.
pub record Env : Type 0 where
  pub malloc : ℕ → Bool
  pub system : Str → ℕ
  pub reload : Str → ℕ
  pub zlog_init : Str → ℕ
  pub get_category : Str → ℕ
  pub needless : ℕ → ZlogLevel → Bool
  pub has_cfg_copy : Bool
  pub default_cfg : Str

-- The static variables, the number of blocks of the heap that the functions have, and what was run,
-- reloaded and logged so far, the last first.
pub record LogState : Type 0 where
  pub cur_log_file : Option Str
  pub trace_level : List ℕ
  pub zlog_cat : List ℕ
  pub commands : List Str
  pub reloads : List Str
  pub lines : List (ℕ × ZlogLevel)
  pub blocks : ℕ

-- After a `bf_sys_malloc` that gives a block, and after a `bf_sys_free` of one.
abbrev pub allocated : LogState → LogState
allocated st = record st { blocks = suc st.blocks }

abbrev pub one_less : ℕ → ℕ
one_less zero = zero
one_less (suc n) = n

abbrev pub freed : LogState → LogState
freed st = record st { blocks = one_less st.blocks }

abbrev pub take : ℕ → Str → Str
take zero s = []
take (suc n) [] = []
take (suc n) (c ∷ s) = c ∷ take n s

-- What `snprintf` writes and returns: at most `len - 1` bytes, and the length of the whole.
abbrev pub join : List Str → Str
join [] = []
join (p ∷ ps) = p ++ join ps

unfoldable pub bf_get_zlog_level : ℕ → ZlogLevel
bf_get_zlog_level bf_level =
    if bf_level == 1
    then fatal
    else if bf_level == 2
    then error
    else if bf_level == 3
    then warn
    else if bf_level == 4
    then info
    else debug

unfoldable pub bf_sys_log_get_cat : Env → Str → ℕ
bf_sys_log_get_cat env category_name = env.get_category category_name

-- `strncpy` of a name into a buffer of `n + 1` bytes.
abbrev name_at : ℕ → List Str → ℕ → Outcome Str
name_at n names i = defined (get_elem? names i) >>= λ s. done (take n s)

unfoldable pub bf_sys_log_zlog_reconfig : Env → Str → LogState → Outcome (ℕ × LogState)
bf_sys_log_zlog_reconfig env file st =
    done (if env.reload file == 0 then 0 else minus_one, record st { reloads = file ∷ st.reloads })

-- The lengths that are computed for the command's buffer.
abbrev pub command_len : (output : ℕ) (m l f : Str) → ℕ
command_len output m l f =
    if output == dest_stdout
    then u32 (128 + 4 * length m + 3 * length f + 2 * length l)
    else u32 (64 + 3 * length m + 2 * length f + length l)

abbrev pub command : (output : ℕ) (m l f : Str) → Str
command output m l f =
    if output == dest_stdout then join (stdout_command m l f) else join (file_command m l f)

unfoldable pub bf_sys_trace : (mod_index level : ℕ) → LogState → Outcome (ℕ × LogState)
bf_sys_trace mod_index level st =
    if not (int_lt mod_index bf_mod_max)
    then done (minus_one, st)
    else (do configured ← defined (get_elem? st.trace_level mod_index); done (0, st))

module _ (env : Env) where
  unfoldable pub zlog_would_log_at_level : ℕ → ZlogLevel → Bool
  zlog_would_log_at_level category level =
      if category == 0 then false else not (env.needless category level)

  -- With the names and the file at hand.
  unfoldable edit_and_reload : (output : ℕ) (m l f : Str) → LogState → Outcome (ℕ × LogState)
  unfolding bf_sys_log_zlog_reconfig
  edit_and_reload output m l f st =
      let len = command_len output m l f in
      let sed_cmd = command output m l f in
      if not (env.malloc len)
      then done (minus_one, st)
      else if not (int_lt (length sed_cmd) len)
      then done (minus_one, freed (allocated st))
      else bf_sys_log_zlog_reconfig env f
          (freed (record (allocated st) { commands = sed_cmd ∷ st.commands }))

  unfoldable pub bf_sys_log_level_set :
      (mod_index output bf_level : ℕ) → LogState → Outcome (ℕ × LogState)
  unfolding edit_and_reload
  bf_sys_log_level_set mod_index output bf_level st =
      if not (int_lt mod_index bf_mod_max)
        || negative mod_index
        || int_lt bf_log_max bf_level
        || negative bf_level
      then done (minus_one, st)
      else if not (output == dest_stdout) && not (output == dest_file)
      then done (minus_one, st)
      else (do
        m ← name_at 255 zlog_cat_name mod_index
        l ← name_at 7 zlog_cfg_level_name bf_level
        f ← defined st.cur_log_file
        edit_and_reload output m l f st)

  -- The buffer has 100 bytes, and the command is run as it is cut.
  unfoldable pub bf_sys_syslog_level_set : ℕ → LogState → Outcome (ℕ × LogState)
  unfolding bf_sys_log_zlog_reconfig
  bf_sys_syslog_level_set bf_level st =
      if int_lt bf_log_max bf_level then done (minus_one, st) else (do
        l ← name_at 7 zlog_cfg_level_name bf_level
        f ← defined st.cur_log_file
        let sed_cmd = take 99 (join (syslog_command l f))
        let st' = record st { commands = sed_cmd ∷ st.commands }
        if negative (env.system sed_cmd)
            then done (minus_one, st')
            else bf_sys_log_zlog_reconfig env f st')

  -- `vzlog` on the category of the module, if it would log.
  unfoldable log_line : (category level : ℕ) → LogState → LogState
  unfolding bf_get_zlog_level zlog_would_log_at_level
  log_line category level st =
      if zlog_would_log_at_level category (bf_get_zlog_level level)
      then record st { lines = (category, bf_get_zlog_level level) ∷ st.lines }
      else st

  -- A negative index is a read outside the array.
  unfoldable pub bf_sys_log : (mod_index level : ℕ) → LogState → Outcome (ℕ × LogState)
  unfolding log_line
  bf_sys_log mod_index level st =
      if not (int_lt mod_index bf_mod_max) then done (minus_one, st) else (do
        category ← defined (get_elem? st.zlog_cat mod_index)
        done (0, log_line category level st))

  unfoldable pub bf_sys_log_and_trace : (mod_index level : ℕ) → LogState → Outcome (ℕ × LogState)
  unfolding log_line
  bf_sys_log_and_trace mod_index level st =
      if not (int_lt mod_index bf_mod_max) then done (minus_one, st) else (do
        configured ← defined (get_elem? st.trace_level mod_index)
        category ← defined (get_elem? st.zlog_cat mod_index)
        done (0, log_line category level st))

  unfoldable pub bf_sys_log_is_log_enabled : (mod_index level : ℕ) → LogState → Outcome ℕ
  unfolding zlog_would_log_at_level bf_get_zlog_level
  bf_sys_log_is_log_enabled mod_index level st =
      if not (int_lt mod_index bf_mod_max)
      then done minus_one
      else if negative mod_index
      then done minus_one
      else (do
        configured ← defined (get_elem? st.trace_level mod_index)
        category ← defined (get_elem? st.zlog_cat mod_index)
        done (
            if not (int_lt configured level)
              || zlog_would_log_at_level category (bf_get_zlog_level level)
            then 1
            else 0))

unfoldable pub bf_sys_trace_level_set : (mod_index bf_level : ℕ) → LogState → Outcome LogState
bf_sys_trace_level_set mod_index bf_level st =
    if not (int_lt mod_index bf_mod_max)
    then done st
    else if ltb mod_index (length st.trace_level)
    then done (record st { trace_level = set st.trace_level mod_index bf_level })
    else faulted

-- `memset` on the first `size` bytes of the buffer, which must have them; the result, the buffer and
-- the number of bytes.
unfoldable pub bf_sys_trace_get : (buf : List ℕ) (size : ℕ) → Outcome (ℕ × List ℕ × ℕ)
bf_sys_trace_get buf size =
    if leb size (length buf)
    then done (0, map (λ _. 0) (take size buf) ++ drop size buf, size)
    else faulted

unfoldable pub bf_sys_trace_reset : LogState → ℕ × LogState
bf_sys_trace_reset st = (0, st)
