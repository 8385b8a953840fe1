-- ===== src/Log/Modules/Names.antt =====
-- The names in the tables of src/bf_sal/linux_usr/bf_sys_log.c, against the header's numbers.
use target_syslibs.Base.{
  ℕ, suc, ◌≡◌, refl, Bool, true, false, ◌&&◌, Option, none, some, List, [], ◌∷◌, ◌==◌, length,
  get_elem?, if◌then◌else◌,
}
use target_syslibs.Log.{bf_mod_max, bf_log_max}
use target_syslibs.Log.Strings.{Str, bytes, zlog_cat_name, zlog_cfg_level_name}
use target_syslibs.Log.Modules.{
  BfMod, bf_mod_sys, bf_mod_util, bf_mod_lld, bf_mod_pipe, bf_mod_tm, bf_mod_mc, bf_mod_pkt,
  bf_mod_dvm, bf_mod_port, bf_mod_avago, bf_mod_dru, bf_mod_map, bf_mod_switchapi, bf_mod_sai,
  bf_mod_pi, bf_mod_pltfm, bf_mod_pal, bf_mod_pm, bf_mod_knet, bf_mod_bfrt, bf_mod_p4rt,
  bf_mod_switchd, krnlmon, ovsp4rt, infrap4d, module_number, BfLog, bf_log_none, bf_log_crit,
  bf_log_err, bf_log_warn, bf_log_info, bf_log_dbg, level_number,
}

-- The category of a module in zlog's configuration: the name of its macro, but for `BF_API`.
abbrev category : BfMod → Str
category bf_mod_sys = bytes "BF_SYS"
category bf_mod_util = bytes "BF_UTIL"
category bf_mod_lld = bytes "BF_LLD"
category bf_mod_pipe = bytes "BF_PIPE"
category bf_mod_tm = bytes "BF_TM"
category bf_mod_mc = bytes "BF_MC"
category bf_mod_pkt = bytes "BF_PKT"
category bf_mod_dvm = bytes "BF_DVM"
category bf_mod_port = bytes "BF_PORT"
category bf_mod_avago = bytes "BF_AVAGO"
category bf_mod_dru = bytes "BF_DRU"
category bf_mod_map = bytes "BF_MAP"
category bf_mod_switchapi = bytes "BF_API"
category bf_mod_sai = bytes "BF_SAI"
category bf_mod_pi = bytes "BF_PI"
category bf_mod_pltfm = bytes "BF_PLTFM"
category bf_mod_pal = bytes "BF_PAL"
category bf_mod_pm = bytes "BF_PM"
category bf_mod_knet = bytes "BF_KNET"
category bf_mod_bfrt = bytes "BF_BFRT"
category bf_mod_p4rt = bytes "BF_P4RT"
category bf_mod_switchd = bytes "BF_SWITCHD"
category krnlmon = bytes "KRNLMON"
category ovsp4rt = bytes "OVSP4RT"
category infrap4d = bytes "INFRAP4D"

-- The level of zlog that stands for a level.
abbrev zlog_level : BfLog → Str
zlog_level bf_log_none = bytes "NONE"
zlog_level bf_log_crit = bytes "FATAL"
zlog_level bf_log_err = bytes "ERROR"
zlog_level bf_log_warn = bytes "WARN"
zlog_level bf_log_info = bytes "INFO"
zlog_level bf_log_dbg = bytes "DEBUG"

-- Whether two names are the same.
abbrev same : Str → Str → Bool
same [] [] = true
same [] (y ∷ ys) = false
same (x ∷ xs) [] = false
same (x ∷ xs) (y ∷ ys) = (x == y) && same xs ys

-- The first place of a name in a table.
abbrev place_from : ℕ → Str → List Str → Option ℕ
place_from i s [] = none
place_from i s (x ∷ xs) = if same s x then some i else place_from (suc i) s xs

abbrev place : Str → List Str → Option ℕ
place s xs = place_from 0 s xs

module_name-place :
    (m : BfMod)
    → (get_elem? zlog_cat_name (module_number m) ≡ some (category m))
      × (place (category m) zlog_cat_name ≡ some (module_number m))
module_name-place bf_mod_sys = (refl, refl)
module_name-place bf_mod_util = (refl, refl)
module_name-place bf_mod_lld = (refl, refl)
module_name-place bf_mod_pipe = (refl, refl)
module_name-place bf_mod_tm = (refl, refl)
module_name-place bf_mod_mc = (refl, refl)
module_name-place bf_mod_pkt = (refl, refl)
module_name-place bf_mod_dvm = (refl, refl)
module_name-place bf_mod_port = (refl, refl)
module_name-place bf_mod_avago = (refl, refl)
module_name-place bf_mod_dru = (refl, refl)
module_name-place bf_mod_map = (refl, refl)
module_name-place bf_mod_switchapi = (refl, refl)
module_name-place bf_mod_sai = (refl, refl)
module_name-place bf_mod_pi = (refl, refl)
module_name-place bf_mod_pltfm = (refl, refl)
module_name-place bf_mod_pal = (refl, refl)
module_name-place bf_mod_pm = (refl, refl)
module_name-place bf_mod_knet = (refl, refl)
module_name-place bf_mod_bfrt = (refl, refl)
module_name-place bf_mod_p4rt = (refl, refl)
module_name-place bf_mod_switchd = (refl, refl)
module_name-place krnlmon = (refl, refl)
module_name-place ovsp4rt = (refl, refl)
module_name-place infrap4d = (refl, refl)

level_name-place :
    (l : BfLog)
    → (get_elem? zlog_cfg_level_name (level_number l) ≡ some (zlog_level l))
      × (place (zlog_level l) zlog_cfg_level_name ≡ some (level_number l))
level_name-place bf_log_none = (refl, refl)
level_name-place bf_log_crit = (refl, refl)
level_name-place bf_log_err = (refl, refl)
level_name-place bf_log_warn = (refl, refl)
level_name-place bf_log_info = (refl, refl)
level_name-place bf_log_dbg = (refl, refl)

-- The two tables of names keep the indices of the header: a module's category stands at the module's
-- number in `zlog_cat_name`, and is found nowhere before it, so that no two modules share a category;
-- the same holds of the levels and `zlog_cfg_level_name`. The tables have one name for each number up
-- to `BF_MOD_MAX` and `BF_LOG_MAX`.
tables_agree :
    (m : BfMod) (l : BfLog)
    → (get_elem? zlog_cat_name (module_number m) ≡ some (category m))
      × (place (category m) zlog_cat_name ≡ some (module_number m))
      × (get_elem? zlog_cfg_level_name (level_number l) ≡ some (zlog_level l))
      × (place (zlog_level l) zlog_cfg_level_name ≡ some (level_number l))
      × (length zlog_cat_name ≡ bf_mod_max)
      × (length zlog_cfg_level_name ≡ suc bf_log_max)
tables_agree m l =
    let (a, b) = module_name-place m in let (c, d) = level_name-place l in (a, b, c, d, refl, refl)
