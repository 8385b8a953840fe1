-- ===== src/Log/Assert/Tests.antt =====
-- The theorem on the checks at a concrete state.
use target_syslibs.Base.{false}
use target_syslibs.Log.{Env}
use target_syslibs.Log.Toy.{quiet}

-- zlog logs all lines.
abbrev logging : Env
logging = record quiet { needless = λ c l. false }
