-- ===== src/Log/Config/Patterns.antt =====
-- Which lines the pattern of a module matches.
use mathlib.Core.List.{append_assoc}
use target_syslibs.Base.{
  ℕ, zero, suc, ◌+◌, ◌≡◌, ◌≢◌, ◌⊎◌, inl, inr, refl, sym, ap, ◌∙◌, Bool, true, false, not, ◌&&◌,
  ◌||◌, none, some, Option-cases, List, [], ◌∷◌, ◌++◌, get_elem?, ◌==◌, ne→not-==, arith,
}
use target_syslibs.Log.Strings.{Str, bytes, zlog_cat_name, zlog_cfg_level_name}
use target_syslibs.Log.Config.{
  after_prefix, first_of, last_of, arrow, up_to, before_and_after, split_at, put, substituted,
  console_line, level_edit, only, is_literal, is_text, IsWritten,
}

-- A test at every element of a list, with its index.
abbrev check : (ℕ → Str → Bool) → ℕ → List Str → Bool
check p i [] = true
check p i (s ∷ ss) = p i s && check p (suc i) ss

check-at :
    (p : ℕ → Str → Bool) (i j : ℕ) (s : Str) (ss : List Str)
    → check p i ss ≡ true
    → get_elem? ss j ≡ some s
    → p (i + j) s ≡ true
check-at p i j s [] h e = ground arith
check-at p i zero s (x ∷ ss) h e = ground arith
check-at p i (suc j) s (x ∷ ss) h e =
    ap (λ (n : ℕ). p n s) (omega arith) ∙ check-at p (suc i) j s ss (ground arith) e

check-all :
    (p : ℕ → Str → Bool) (j : ℕ) (s : Str) (ss : List Str)
    → check p 0 ss ≡ true
    → get_elem? ss j ≡ some s
    → p j s ≡ true
check-all p j s ss h e = ap (λ (n : ℕ). p n s) (omega arith) ∙ check-at p 0 j s ss h e

abbrev occurs : Str → Str → Bool
occurs m line = elim (first_of m line) [ none ↦ false | some _ ↦ true ]

-- `BF_PI` is the number 14 and `BF_PIPE` the number 3.
abbrev tested : ℕ → ℕ → Bool
tested i j = i == j || (i == 14 && j == 3)

abbrev level_free : (m n : Str) → ℕ → Str → Bool
level_free m n k l = not (occurs m (console_line n l))

abbrev line_free : (i : ℕ) (m : Str) → ℕ → Str → Bool
line_free i m j n = tested i j || check (level_free m n) 0 zlog_cfg_level_name

abbrev module_free : ℕ → Str → Bool
module_free i m = check (line_free i m) 0 zlog_cat_name

other_lines-hold : check module_free 0 zlog_cat_name ≡ true
unfolding first_of
other_lines-hold = refl

module _ (i j k : ℕ) (m n l : Str) (at_i : get_elem? zlog_cat_name i ≡ some m)
    (at_j : get_elem? zlog_cat_name j ≡ some n) (at_k : get_elem? zlog_cfg_level_name k ≡ some l)
    (other : i ≢ j) (not_pipe : (i ≢ 14) ⊎ (j ≢ 3)) where
  untested : tested i j ≡ false
  untested = elim not_pipe [
    | inl d ↦ rw (ne→not-== i j other, ne→not-== i 14 d) refl
    | inr d ↦ ground arith
  ]

  not_there : (occurs m (console_line n l)) ≡ false
  not_there = ground (arith, at_level)
    where
      at_module : module_free i m ≡ true
      at_module = check-all module_free i m zlog_cat_name other_lines-hold at_i

      at_line : line_free i m j n ≡ true
      at_line = check-all (line_free i m) j n zlog_cat_name at_module at_j

      at_level : level_free m n k l ≡ true
      at_level =
          check-all (level_free m n) k l zlog_cfg_level_name (ground (arith, at_line, untested))
            at_k

  pub other_line-split_at : split_at m arrow (console_line n l) ≡ none
  other_line-split_at = elim (Option-cases (first_of m (console_line n l))) [
    | inl e ↦ ap (up_to arrow) e
    | inr (x, e) ↦ absurd (ground (arith, not_there))
  ]

after_prefix-append : (m s : Str) → after_prefix m (m ++ s) ≡ some s
after_prefix-append [] s = refl
after_prefix-append (c ∷ m) s = ground (arith, after_prefix-append m s)

first_of-append : (m s : Str) → first_of m (m ++ s) ≡ some ([], s)
unfolding first_of
first_of-append [] [] = refl
first_of-append [] (d ∷ s) = refl
first_of-append (c ∷ m) s = ground (arith, after_prefix-append m s)

-- In a line of the configuration the arrow comes once, after the level's name.
last_of-level :
    (k : ℕ) (l : Str)
    → get_elem? zlog_cfg_level_name k ≡ some l
    → last_of arrow (bytes "." ++ l ++ bytes " >stdout;console_format")
      ≡ some (bytes ";console_format")
unfolding last_of
last_of-level zero l e = let same : bytes "NONE" ≡ l = cc in rw (sym same) refl
last_of-level (suc zero) l e = let same : bytes "FATAL" ≡ l = cc in rw (sym same) refl
last_of-level (suc (suc zero)) l e = let same : bytes "ERROR" ≡ l = cc in rw (sym same) refl
last_of-level (suc (suc (suc zero))) l e = let same : bytes "WARN" ≡ l = cc in rw (sym same) refl
last_of-level (suc (suc (suc (suc zero)))) l e =
    let same : bytes "INFO" ≡ l = cc in rw (sym same) refl
last_of-level (suc (suc (suc (suc (suc zero))))) l e =
    let same : bytes "DEBUG" ≡ l = cc in rw (sym same) refl
last_of-level (suc (suc (suc (suc (suc (suc k)))))) l e = absurd (ground arith)

-- What follows the arrow that the edit writes.
pub level_edit-append :
    (m l after : Str) → (level_edit m l).new ++ after ≡ m ++ (bytes "." ++ (l ++ (arrow ++ after)))
level_edit-append m l after =
    append_assoc m (bytes "." ++ l ++ arrow) after
    ∙ ap (λ (s : Str). m ++ (bytes "." ++ s)) (append_assoc l arrow after)

module _ (k : ℕ) (m l : Str) (at_k : get_elem? zlog_cfg_level_name k ≡ some l) where
  pub own_line-split_at : split_at m arrow (console_line m l) ≡ some ([], bytes ";console_format")
  own_line-split_at =
      ap (up_to arrow) (first_of-append m (bytes "." ++ l ++ bytes " >stdout;console_format"))
      ∙ ap (before_and_after []) (last_of-level k l at_k)

  -- Setting the level of a module in its own line.
  pub own_line-substituted :
      (new : Str)
      → substituted m arrow (level_edit m new).new (console_line m l) ≡ console_line m new
  own_line-substituted new =
      ap (put (level_edit m new).new (console_line m l)) own_line-split_at
      ∙ level_edit-append m new (bytes ";console_format")

last_of-cons :
    (c : ℕ) (s after : Str) → last_of arrow s ≡ some after → last_of arrow (c ∷ s) ≡ some after
unfolding last_of
last_of-cons c s after e = rw e refl

-- `BF_PI` is found in the line of `BF_PIPE`, and what follows it goes up to the arrow.
pub pipe_line-substituted :
    (k : ℕ) (l new : Str)
    → get_elem? zlog_cfg_level_name k ≡ some l
    → substituted
        (bytes "BF_PI")
        arrow
        (level_edit (bytes "BF_PI") new).new
        (console_line (bytes "BF_PIPE") l)
      ≡ console_line (bytes "BF_PI") new
pipe_line-substituted k l new at_k =
    ap (put (level_edit (bytes "BF_PI") new).new (console_line (bytes "BF_PIPE") l)) (
      ap (up_to arrow) (first_of-append (bytes "BF_PI") (bytes "PE" ++ rest))
      ∙ ap (before_and_after [])
          (last_of-cons 80 (69 ∷ rest) after (last_of-cons 69 rest after (last_of-level k l at_k))))
    ∙ level_edit-append (bytes "BF_PI") new after
  where
    rest : Str
    rest = bytes "." ++ l ++ bytes " >stdout;console_format"

    after : Str
    after = bytes ";console_format"

-- The names of the modules and of the levels are literal.
abbrev is_named : (ℕ → Bool) → ℕ → Str → Bool
is_named p i s = only p s

only-append :
    (p : ℕ → Bool) (s t : Str) → only p s ≡ true → only p t ≡ true → only p (s ++ t) ≡ true
only-append p [] t hs ht = ht
only-append p (c ∷ s) t hs ht = ground (arith, only-append p s t)

pub level_edit-IsWritten :
    (i k : ℕ) (m l : Str)
    → get_elem? zlog_cat_name i ≡ some m
    → get_elem? zlog_cfg_level_name k ≡ some l
    → IsWritten (level_edit m l)
level_edit-IsWritten i k m l at_i at_k = record {
  m_ok = literal;
  q_ok = refl;
  n_ok = literal;
  r_ok = refl;
  new_ok = sets (bytes " >stdout") refl;
  line_ok = sets (bytes " >stdout;console_format") refl;
}
  where
    literal : only is_literal m ≡ true
    literal = check-all (is_named is_literal) i m zlog_cat_name refl at_i

    sets : (t : Str) → only is_text t ≡ true → only is_text (m ++ (bytes "." ++ l ++ t)) ≡ true
    sets t ok =
        only-append is_text m (bytes "." ++ l ++ t)
          (check-all (is_named is_text) i m zlog_cat_name refl at_i)
          (only-append is_text l t (check-all (is_named is_text) k l zlog_cfg_level_name refl at_k)
            ok)
