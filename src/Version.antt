-- ===== src/Version.antt =====
-- src/bf_sal/bf_sys_ver.c with bf_sys_ver.h and bf_sys_bld_ver.h: the version strings. What the build
-- sets is a parameter, `none` where it sets nothing.
use target_syslibs.Base.{Option, none, some, ◌++◌}
use target_syslibs.Base.Text.{Str, bytes}

abbrev target_syslib_bld_ver : Option Str → Str
target_syslib_bld_ver none = bytes "0"
target_syslib_bld_ver (some s) = s

abbrev target_syslib_git_ver : Option Str → Str
target_syslib_git_ver none = bytes "000"
target_syslib_git_ver (some s) = s

abbrev target_syslib_rel_ver : Str
target_syslib_rel_ver = bytes "1.0.0"

abbrev target_syslib_ver : (bld : Option Str) → Str
target_syslib_ver bld = (target_syslib_rel_ver ++ bytes "-") ++ target_syslib_bld_ver bld

abbrev target_syslib_internal_ver : (bld git : Option Str) → Str
target_syslib_internal_ver bld git =
    ((target_syslib_ver bld ++ bytes "(") ++ target_syslib_git_ver git) ++ bytes ")"

unfoldable pub target_syslib_get_version : (bld : Option Str) → Str
target_syslib_get_version bld = target_syslib_ver bld

unfoldable pub target_syslib_get_internal_version : (bld git : Option Str) → Str
target_syslib_get_internal_version bld git = target_syslib_internal_ver bld git
