-- ===== src/Log/Config/Edits.antt =====
-- What setting a level on the console does to a configuration with one line for each module.
use mathlib.Core.List.{append_assoc}
use target_syslibs.Base.{
  ℕ, zero, suc, ◌^◌, ◌<◌, ◌≡◌, ◌≢◌, inl, refl, ap, ◌∙◌, Bool, true, ◌||◌, none, some, List, [], ◌∷◌,
  map, set, length, get_elem?, get_elem?_of_lt, lt_of_get_elem?, if◌then◌else◌, ◌==◌, arith,
}
use target_syslibs.Base.Outcome.{done}
use target_syslibs.Log.{
  Env, LogState, bf_mod_max, dest_stdout, minus_one, command, command_len, bf_sys_log_level_set,
}
use target_syslibs.Log.Strings.{Str, bytes, zlog_cat_name, zlog_cfg_level_name}
use target_syslibs.Log.Level.{level_set-runs}
use target_syslibs.Log.Config.{
  split_at, is_some, put, substituted, arrow, console_line, level_edit, edit_command, any_matches,
  DoesEdits,
}
use target_syslibs.Log.Config.Patterns.{
  other_line-split_at, own_line-split_at, own_line-substituted, pipe_line-substituted,
  level_edit-IsWritten,
}

some_injective : {x y : Str} → some x ≡ some y → x ≡ y
some_injective e = cc

-- A line for each module, with the level's name.
abbrev pub config : (names levels : List Str) → List Str
config [] ls = []
config (n ∷ ns) [] = []
config (n ∷ ns) (l ∷ ls) = console_line n l ∷ config ns ls

abbrev pub IsLevel : Str → Type 0
IsLevel l = (k : ℕ) × (get_elem? zlog_cfg_level_name k ≡ some l)

-- The pattern matches none of the lines.
abbrev Free : (m : Str) (ns ls : List Str) → Type 0
Free m ns ls =
    (j : ℕ) (n l : Str)
    → get_elem? ns j ≡ some n
    → get_elem? ls j ≡ some l
    → split_at m arrow (console_line n l) ≡ none

map-config-Free :
    (m new : Str) (ns ls : List Str)
    → Free m ns ls
    → map (substituted m arrow (level_edit m new).new) (config ns ls) ≡ config ns ls
map-config-Free m new [] ls free = refl
map-config-Free m new (n ∷ ns) [] free = refl
map-config-Free m new (n ∷ ns) (l ∷ ls) free = cc (
  ap (put (level_edit m new).new (console_line n l)) (free 0 n l refl refl),
  map-config-Free m new ns ls (λ j n' l' e f. free (suc j) n' l' e f),
)

map-config :
    (m new : Str) (i : ℕ) (l : Str) (ns ls : List Str)
    → get_elem? ns i ≡ some m
    → get_elem? ls i ≡ some l
    → ((j : ℕ) (n l : Str)
        → i ≢ j
        → get_elem? ns j ≡ some n
        → get_elem? ls j ≡ some l
        → split_at m arrow (console_line n l) ≡ none)
    → substituted m arrow (level_edit m new).new (console_line m l) ≡ console_line m new
    → map (substituted m arrow (level_edit m new).new) (config ns ls) ≡ config ns (set ls i new)
map-config m new i l [] ls at_n at_l others own = absurd (ground arith)
map-config m new i l (n ∷ ns) [] at_n at_l others own = absurd (ground arith)
map-config m new zero l (n ∷ ns) (k ∷ ls) at_n at_l others own =
    cc (own, rest, some_injective at_n, some_injective at_l)
  where
    rest : map (substituted m arrow (level_edit m new).new) (config ns ls) ≡ config ns ls
    rest =
        map-config-Free m new ns ls
          (λ j n' l' e f. others (suc j) n' l' (λ z. omega (arith, z)) e f)
map-config m new (suc i) l (n ∷ ns) (k ∷ ls) at_n at_l others own = cc (
  ap (put (level_edit m new).new (console_line n k))
      (others 0 n k (λ z. omega (arith, z)) refl refl),
  map-config m new i l ns ls at_n at_l
      (λ j n' l' d e f. others (suc j) n' l' (λ z. d (omega (arith, z))) e f) own,
)

or_left : (b c : Bool) → b ≡ true → (b || c) ≡ true
or_left b c e = ground arith

or_right : (b c : Bool) → c ≡ true → (b || c) ≡ true
or_right b c e = ground arith

any_matches-config :
    (m : Str) (i : ℕ) (l : Str) (ns ls : List Str)
    → get_elem? ns i ≡ some m
    → get_elem? ls i ≡ some l
    → is_some (split_at m arrow (console_line m l)) ≡ true
    → any_matches m arrow (config ns ls) ≡ true
any_matches-config m i l [] ls at_n at_l own = absurd (ground arith)
any_matches-config m i l (n ∷ ns) [] at_n at_l own = absurd (ground arith)
any_matches-config m zero l (n ∷ ns) (k ∷ ls) at_n at_l own =
    or_left (is_some (split_at m arrow (console_line n k))) (any_matches m arrow (config ns ls))
      (cc (own, some_injective at_n, some_injective at_l))
any_matches-config m (suc i) l (n ∷ ns) (k ∷ ls) at_n at_l own =
    or_right (is_some (split_at m arrow (console_line n k))) (any_matches m arrow (config ns ls))
      (any_matches-config m i l ns ls at_n at_l own)

get_elem?-map :
    (g : Str → Str) (xs : List Str) (i : ℕ) (x : Str)
    → get_elem? xs i ≡ some x
    → get_elem? (map g xs) i ≡ some (g x)
get_elem?-map g [] i x e = absurd (ground arith)
get_elem?-map g (y ∷ xs) zero x e = ap (λ (z : Str). some (g z)) (some_injective e)
get_elem?-map g (y ∷ xs) (suc i) x e = get_elem?-map g xs i x e

-- The command of the code is the one that makes this edit.
command-edit_command : (m l f : Str) → command dest_stdout m l f ≡ edit_command (level_edit m l) f
command-edit_command m l f = simp append_assoc

module _ (shell : Str → List Str → List Str) (f new : Str) (level : ℕ) (ls : List Str)
    (edits : DoesEdits f shell) (at_level : get_elem? zlog_cfg_level_name level ≡ some new)
    (full : length ls ≡ bf_mod_max)
    (known : (j : ℕ) (l : Str) → get_elem? ls j ≡ some l → IsLevel l) where
  -- The line of the module is found, so the shell substitutes.
  substitutes :
      (i : ℕ) (m : Str)
      → get_elem? zlog_cat_name i ≡ some m
      → shell (command dest_stdout m new f) (config zlog_cat_name ls)
        ≡ map (substituted m arrow (level_edit m new).new) (config zlog_cat_name ls)
  substitutes i m at_i =
      ap (λ (c : Str). shell c (config zlog_cat_name ls)) (command-edit_command m new f)
      ∙ edits.edits (level_edit m new) (config zlog_cat_name ls)
          (level_edit-IsWritten i level m new at_i at_level)
      ∙ rw (any_matches-config m i l zlog_cat_name ls at_i at_l (ap is_some found)) refl
    where
      mine : (l : Str) × (get_elem? ls i ≡ some l)
      mine = get_elem?_of_lt ls i (omega (arith, full, lt_of_get_elem? zlog_cat_name i m at_i))

      l : Str
      l = mine.0

      at_l : get_elem? ls i ≡ some l
      at_l = mine.1

      found : split_at m arrow (console_line m l) ≡ some ([], bytes ";console_format")
      found = own_line-split_at (known i l at_l).0 m l (known i l at_l).1

  module _ (env : Env) (st : LogState) (at_file : st.cur_log_file ≡ some f)
      (short : length f < 2 ^ 28) where
    -- For a shell that does what grep, sed and echo document, and a configuration with a line for each
    -- module: `bf_sys_log_level_set` of a module other than `BF_PI` on the console runs a command that
    -- changes the level in the line of that module and nothing else.
    pub level_set-config :
        (i : ℕ) (m : Str)
        → get_elem? zlog_cat_name i ≡ some m
        → i ≢ 14
        → env.malloc (command_len dest_stdout m new f) ≡ true
        → (bf_sys_log_level_set env i dest_stdout level st
            ≡ done (
              if env.reload f == 0 then 0 else minus_one,
              record st {
                commands = command dest_stdout m new f ∷ st.commands;
                reloads = f ∷ st.reloads;
              },
            ))
          × (shell (command dest_stdout m new f) (config zlog_cat_name ls)
              ≡ config zlog_cat_name (set ls i new))
    level_set-config i m at_i not_pi mem = (
      level_set-runs env i dest_stdout level m new f st (inl refl) at_i at_level at_file short mem,
      substitutes i m at_i
          ∙ map-config m new i mine.0 zlog_cat_name ls at_i mine.1
              (λ j n l d e g.
                other_line-split_at i j (known j l g).0 m n l at_i e (known j l g).1 d (inl not_pi))
              (own_line-substituted (known i mine.0 mine.1).0 m mine.0 (known i mine.0 mine.1).1
                new),
    )
      where
        mine : (l : Str) × (get_elem? ls i ≡ some l)
        mine = get_elem?_of_lt ls i (omega (arith, full, lt_of_get_elem? zlog_cat_name i m at_i))

    -- For such a shell and configuration, `bf_sys_log_level_set` of `BF_PI` on the console runs a
    -- command that replaces the line of `BF_PIPE` by one of `BF_PI`.
    pub pi_takes_pipe :
        env.malloc (command_len dest_stdout (bytes "BF_PI") new f) ≡ true
        → (bf_sys_log_level_set env 14 dest_stdout level st
            ≡ done (
              if env.reload f == 0 then 0 else minus_one,
              record st {
                commands = command dest_stdout (bytes "BF_PI") new f ∷ st.commands;
                reloads = f ∷ st.reloads;
              },
            ))
          × (get_elem?
                (shell (command dest_stdout (bytes "BF_PI") new f) (config zlog_cat_name ls))
                3
              ≡ some (console_line (bytes "BF_PI") new))
    pi_takes_pipe mem = (
      level_set-runs env 14 dest_stdout level (bytes "BF_PI") new f st (inl refl) refl at_level
          at_file short mem,
      ap (λ (lines : List Str). get_elem? lines 3) (substitutes 14 (bytes "BF_PI") refl)
          ∙ get_elem?-map (substituted (bytes "BF_PI") arrow (level_edit (bytes "BF_PI") new).new)
              (config zlog_cat_name ls) 3 (console_line (bytes "BF_PIPE") pipe.0) (line ls pipe.1)
          ∙ ap some (
              pipe_line-substituted (known 3 pipe.0 pipe.1).0 pipe.0 new (known 3 pipe.0 pipe.1).1),
    )
      where
        pipe : (l : Str) × (get_elem? ls 3 ≡ some l)
        pipe = get_elem?_of_lt ls 3 (omega (arith, full))

        line :
            {l : Str} (ks : List Str)
            → get_elem? ks 3 ≡ some l
            → get_elem? (config zlog_cat_name ks) 3 ≡ some (console_line (bytes "BF_PIPE") l)
        line (a ∷ b ∷ c ∷ d ∷ ks) e =
            ap (λ (t : Str). some (console_line (bytes "BF_PIPE") t)) (some_injective e)
        line [] e = absurd (ground arith)
        line (a ∷ []) e = absurd (ground arith)
        line (a ∷ b ∷ []) e = absurd (ground arith)
        line (a ∷ b ∷ c ∷ []) e = absurd (ground arith)
