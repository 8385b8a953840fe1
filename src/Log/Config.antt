-- ===== src/Log/Config.antt =====
-- What the commands of `bf_sys_log_level_set` do to zlog's configuration file, which is a list of
-- lines. The shell is a parameter, and `DoesEdits` is what grep, sed and echo document of any command
-- of that form.
pub mod Patterns
pub mod Edits
mod Toy
mod Tests
use target_syslibs.Base.{
  ℕ, zero, suc, ◌≡◌, Bool, true, false, ◌&&◌, ◌||◌, leb, Option, none, some, List, [], ◌∷◌, ◌++◌,
  map, if◌then◌else◌, ◌==◌, get_elem?,
}
use target_syslibs.Log.{join}
use target_syslibs.Log.Strings.{Str, bytes}

-- What follows `p` at the front of a string.
abbrev pub after_prefix : Str → Str → Option Str
after_prefix [] s = some s
after_prefix (c ∷ p) [] = none
after_prefix (c ∷ p) (d ∷ s) = let rest = after_prefix p s in if c == d then rest else none

-- What precedes and follows the first occurrence of `p`.
pub first_of : Str → Str → Option (Str × Str)
first_of p [] = elim (after_prefix p []) [ none ↦ none | some rest ↦ some ([], rest) ]
first_of p (d ∷ s) =
    let later = first_of p s in
    elim (after_prefix p (d ∷ s)) [
      | some rest ↦ some ([], rest)
      | none ↦ elim later [ none ↦ none | some (before, rest) ↦ some (d ∷ before, rest) ]
    ]

-- What follows the last occurrence of `p`.
pub last_of : Str → Str → Option Str
last_of p [] = after_prefix p []
last_of p (d ∷ s) =
    let later = last_of p s in elim later [ none ↦ after_prefix p (d ∷ s) | some rest ↦ some rest ]

abbrev pub before_and_after : Str → Option Str → Option (Str × Str)
before_and_after before none = none
before_and_after before (some after) = some (before, after)

abbrev pub up_to : Str → Option (Str × Str) → Option (Str × Str)
up_to q none = none
up_to q (some (before, rest)) = before_and_after before (last_of q rest)

-- The part of a line that matches `m.*q` first and is as long as it can be: what precedes it, and what
-- follows.
abbrev pub split_at : (m q : Str) → Str → Option (Str × Str)
split_at m q line = up_to q (first_of m line)

abbrev pub is_some : Option (Str × Str) → Bool
is_some none = false
is_some (some _) = true

-- Whether one of the lines has a match of `m.*q`.
abbrev pub any_matches : (m q : Str) → List Str → Bool
any_matches m q [] = false
any_matches m q (line ∷ lines) = is_some (split_at m q line) || any_matches m q lines

abbrev pub put : (new line : Str) → Option (Str × Str) → Str
put new line none = line
put new line (some (before, after)) = before ++ (new ++ after)

-- `s/n.*r/new/`
abbrev pub substituted : (n r new : Str) → Str → Str
substituted n r new line = put new line (split_at n r line)

-- The command `grep -q "m.*q" f && sed -i 's/n.*r/new/' f || echo 'line' >> f`.
pub record Edit : Type 0 where
  pub m : Str
  pub q : Str
  pub n : Str
  pub r : Str
  pub new : Str
  pub line : Str

abbrev pub edit_command : Edit → Str → Str
edit_command e f = join (
    bytes "grep -q \""
    ∷ e.m
    ∷ bytes ".*"
    ∷ e.q
    ∷ bytes "\" "
    ∷ f
    ∷ bytes " && sed -i 's/"
    ∷ e.n
    ∷ bytes ".*"
    ∷ e.r
    ∷ bytes "/"
    ∷ e.new
    ∷ bytes "/' "
    ∷ f
    ∷ bytes " || echo '"
    ∷ e.line
    ∷ bytes "' >> "
    ∷ f
    ∷ [])

-- Substituted in each line if one matches, and a line at the end otherwise.
abbrev pub edited : Edit → List Str → List Str
edited e lines =
    if any_matches e.m e.q lines
    then map (substituted e.n e.r e.new) lines
    else lines ++ (e.line ∷ [])

-- A letter, a digit, `_`, a space or `>`: in quotes, the shell and a pattern treat it as itself.
abbrev pub is_literal : ℕ → Bool
is_literal c =
    (leb 48 c && leb c 57)
    || (leb 65 c && leb c 90)
    || (leb 97 c && leb c 122)
    || c == 95
    || c == 32
    || c == 62

-- Also `.` or `;`, which are themselves in what sed puts in and in what echo prints.
abbrev pub is_text : ℕ → Bool
is_text c = is_literal c || c == 46 || c == 59

abbrev pub only : (ℕ → Bool) → Str → Bool
only p [] = true
only p (c ∷ s) = p c && only p s

pub record IsWritten (e : Edit) : Type 0 where
  pub m_ok : only is_literal e.m ≡ true
  pub q_ok : only is_literal e.q ≡ true
  pub n_ok : only is_literal e.n ≡ true
  pub r_ok : only is_literal e.r ≡ true
  pub new_ok : only is_text e.new ≡ true
  pub line_ok : only is_text e.line ≡ true

-- Running any command of that form on the lines of the file `f`, whose name the shell reads as itself.
pub record DoesEdits (f : Str) (shell : Str → List Str → List Str) : Type 0 where
  pub edits :
      (e : Edit) (lines : List Str) → IsWritten e → shell (edit_command e f) lines ≡ edited e lines

abbrev pub arrow : Str
arrow = bytes " >stdout"

-- The line that sets the module `m` to the level `l` on the console.
abbrev pub console_line : (m l : Str) → Str
console_line m l = m ++ (bytes "." ++ l ++ bytes " >stdout;console_format")

-- The edit that sets the module `m` to the level `l`.
abbrev pub level_edit : (m l : Str) → Edit
level_edit m l = record {
  m = m;
  q = arrow;
  n = m;
  r = arrow;
  new = m ++ (bytes "." ++ l ++ arrow);
  line = console_line m l;
}
