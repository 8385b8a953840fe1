-- ===== src/Base/Text.antt =====
-- Strings of C, as their bytes without the 0 at the end.
use Prim.Native.Char.{code}
use Prim.Native.String.{String}
use target_syslibs.Base.{ℕ, List, [], ◌∷◌}

abbrev pub Str : Type 0
Str = List ℕ

-- The bytes of a literal, which is ASCII.
abbrev pub bytes : String → Str
bytes String.[] = []
bytes (String.◌∷◌ c s) = code c ∷ bytes s
