-- ===== src/Log/Strings.antt =====
-- The strings of bf_sys_log.c, as their bytes without the 0 at the end: names of modules and levels,
-- and the literal parts of the commands.
use target_syslibs.Base.{List, [], ◌∷◌}
pub use target_syslibs.Base.Text.{Str, bytes}

-- The names of the zlog categories.
abbrev pub zlog_cat_name : List Str
zlog_cat_name =
    bytes "BF_SYS"
    ∷ bytes "BF_UTIL"
    ∷ bytes "BF_LLD"
    ∷ bytes "BF_PIPE"
    ∷ bytes "BF_TM"
    ∷ bytes "BF_MC"
    ∷ bytes "BF_PKT"
    ∷ bytes "BF_DVM"
    ∷ bytes "BF_PORT"
    ∷ bytes "BF_AVAGO"
    ∷ bytes "BF_DRU"
    ∷ bytes "BF_MAP"
    ∷ bytes "BF_API"
    ∷ bytes "BF_SAI"
    ∷ bytes "BF_PI"
    ∷ bytes "BF_PLTFM"
    ∷ bytes "BF_PAL"
    ∷ bytes "BF_PM"
    ∷ bytes "BF_KNET"
    ∷ bytes "BF_BFRT"
    ∷ bytes "BF_P4RT"
    ∷ bytes "BF_SWITCHD"
    ∷ bytes "KRNLMON"
    ∷ bytes "OVSP4RT"
    ∷ bytes "INFRAP4D"
    ∷ []

abbrev pub zlog_cfg_level_name : List Str
zlog_cfg_level_name =
    bytes "NONE" ∷ bytes "FATAL" ∷ bytes "ERROR" ∷ bytes "WARN" ∷ bytes "INFO" ∷ bytes "DEBUG" ∷ []

-- `zlog-cfg-cur`
abbrev pub zlog_cfg_file : Str
zlog_cfg_file = bytes "zlog-cfg-cur"

-- The format `grep -q "%s.* >stdout" %s && sed -i 's/%s.* >stdout/%s.%s >stdout/' %s || echo '%s.%s >stdout;console_format' >> %s`
abbrev pub stdout_command : (m l f : Str) → List Str
stdout_command m l f =
    bytes "grep -q \""
    ∷ m
    ∷ bytes ".* >stdout\" "
    ∷ f
    ∷ bytes " && sed -i 's/"
    ∷ m
    ∷ bytes ".* >stdout/"
    ∷ m
    ∷ bytes "."
    ∷ l
    ∷ bytes " >stdout/' "
    ∷ f
    ∷ bytes " || echo '"
    ∷ m
    ∷ bytes "."
    ∷ l
    ∷ bytes " >stdout;console_format' >> "
    ∷ f
    ∷ []

-- The format `grep -q "%s.* """ %s && sed -i 's/%s.* "/%s.%s "/' %s`
abbrev pub file_command : (m l f : Str) → List Str
file_command m l f =
    bytes "grep -q \""
    ∷ m
    ∷ bytes ".* \"\"\" "
    ∷ f
    ∷ bytes " && sed -i 's/"
    ∷ m
    ∷ bytes ".* \"/"
    ∷ m
    ∷ bytes "."
    ∷ l
    ∷ bytes " \"/' "
    ∷ f
    ∷ []

-- The format `sed -i /syslog/d %s && echo '*.%s >syslog , LOG_USER' >> %s`
abbrev pub syslog_command : (l f : Str) → List Str
syslog_command l f =
    bytes "sed -i /syslog/d "
    ∷ f
    ∷ bytes " && echo '*."
    ∷ l
    ∷ bytes " >syslog , LOG_USER' >> "
    ∷ f
    ∷ []

-- The format `cp %s %s`
abbrev pub copy_command : (s t : Str) → List Str
copy_command s t = bytes "cp " ∷ s ∷ bytes " " ∷ t ∷ []
