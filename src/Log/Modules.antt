-- ===== src/Log/Modules.antt =====
-- The modules and the levels that include/target-sys/bf_sal/bf_sys_log.h numbers.
pub mod Names
use target_syslibs.Base.{ℕ, suc}

-- `BF_MOD_SYS` to `INFRAP4D`
pub data BfMod : Type 0 where
  bf_mod_sys bf_mod_util bf_mod_lld bf_mod_pipe bf_mod_tm bf_mod_mc bf_mod_pkt bf_mod_dvm : BfMod
  bf_mod_port bf_mod_avago bf_mod_dru bf_mod_map bf_mod_switchapi bf_mod_sai bf_mod_pi : BfMod
  bf_mod_pltfm bf_mod_pal bf_mod_pm bf_mod_knet bf_mod_bfrt bf_mod_p4rt bf_mod_switchd krnlmon :
      BfMod
  ovsp4rt infrap4d : BfMod

-- The number that the header gives the module.
abbrev pub module_number : BfMod → ℕ
module_number bf_mod_sys = 0
module_number bf_mod_util = 1
module_number bf_mod_lld = 2
module_number bf_mod_pipe = 3
module_number bf_mod_tm = 4
module_number bf_mod_mc = 5
module_number bf_mod_pkt = 6
module_number bf_mod_dvm = 7
module_number bf_mod_port = 8
module_number bf_mod_avago = 9
module_number bf_mod_dru = 10
module_number bf_mod_map = 11
module_number bf_mod_switchapi = 12
module_number bf_mod_sai = 13
module_number bf_mod_pi = 14
module_number bf_mod_pltfm = 15
module_number bf_mod_pal = 16
module_number bf_mod_pm = 17
module_number bf_mod_knet = 18
module_number bf_mod_bfrt = 19
module_number bf_mod_p4rt = 20
module_number bf_mod_switchd = 21
module_number krnlmon = 22
module_number ovsp4rt = 23
module_number infrap4d = 24

-- `BF_LOG_NONE` to `BF_LOG_DBG`
pub data BfLog : Type 0 where
  bf_log_none bf_log_crit bf_log_err bf_log_warn bf_log_info bf_log_dbg : BfLog

abbrev pub level_number : BfLog → ℕ
level_number bf_log_none = 0
level_number bf_log_crit = 1
level_number bf_log_err = 2
level_number bf_log_warn = 3
level_number bf_log_info = 4
level_number bf_log_dbg = 5
