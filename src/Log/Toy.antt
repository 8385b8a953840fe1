-- ===== src/Log/Toy.antt =====
-- An environment for the tests, where everything works and nothing is logged, and a state with all
-- modules at the same trace level and category.
use target_syslibs.Base.{ℕ, zero, suc, true, some, List, [], ◌∷◌}
use target_syslibs.Log.{Env, LogState}
use target_syslibs.Log.Strings.{zlog_cfg_file}

abbrev pub quiet : Env
quiet = record {
  malloc = λ n. true;
  system = λ s. 0;
  reload = λ s. 0;
  zlog_init = λ s. 0;
  get_category = λ s. 1;
  needless = λ c l. true;
  has_cfg_copy = true;
  default_cfg = zlog_cfg_file;
}

abbrev repeat : ℕ → ℕ → List ℕ
repeat zero x = []
repeat (suc n) x = x ∷ repeat n x

abbrev pub st : LogState
st = record {
  cur_log_file = some zlog_cfg_file;
  trace_level = repeat 25 2;
  zlog_cat = repeat 25 1;
  commands = [];
  reloads = [];
  lines = [];
  blocks = 1;
}
