-- ===== src/Log/Level.antt =====
-- The commands that change a level: the one of `bf_sys_log_level_set` always fits its buffer, the one
-- of `bf_sys_syslog_level_set` fits for short file names.
use target_syslibs.Base.{
  ℕ, zero, suc, ◌+◌, ◌*◌, ◌^◌, ◌≤◌, ◌<◌, ◌≡◌, ◌≢◌, ◌⊎◌, inl, inr, refl, ap, ◌∙◌, Bool, true, false,
  not, ◌&&◌, some, List, [], ◌∷◌, if◌then◌else◌, leb, ◌==◌, length, length-append, get_elem?,
  lt_of_get_elem?, lt→ltb, le→not-ltb, lt→not-leb, dec_lt, arith,
}
use target_syslibs.Base.Outcome.{done}
use target_syslibs.Base.Words.{u32, int_lt}
use target_syslibs.Log.Strings.{
  Str, zlog_cat_name, zlog_cfg_level_name, stdout_command, file_command, syslog_command,
}
use target_syslibs.Log.{
  Env, LogState, bf_mod_max, bf_log_max, dest_stdout, dest_file, minus_one, negative, take, join,
  command, command_len, bf_sys_log_level_set, bf_sys_syslog_level_set,
}

abbrev pub total : List Str → ℕ
total [] = 0
total (p ∷ ps) = length p + total ps

pub length-join : (ps : List Str) → length (join ps) ≡ total ps
length-join [] = refl
length-join (p ∷ ps) = length-append p (join ps) ∙ ap (λ (n : ℕ). length p + n) (length-join ps)

take-all : (n : ℕ) (s : Str) → length s ≤ n → take n s ≡ s
take-all zero [] h = refl
take-all zero (c ∷ s) h = absurd (omega arith)
take-all (suc n) [] h = refl
take-all (suc n) (c ∷ s) h = ap (λ t. c ∷ t) (take-all n s (omega arith))

length-take : (n : ℕ) (s : Str) → length (take n s) ≤ n
length-take zero s = omega arith
length-take (suc n) [] = omega arith
length-take (suc n) (c ∷ s) = omega (arith, length-take n s)

-- No name in the list is longer than `n`.
abbrev all_short : ℕ → List Str → Bool
all_short n [] = true
all_short n (s ∷ ss) = leb (length s) n && all_short n ss

short :
    (n : ℕ) (ss : List Str) (i : ℕ) (s : Str)
    → all_short n ss ≡ true
    → get_elem? ss i ≡ some s
    → length s ≤ n
short n [] i s h e = ground arith
short n (x ∷ ss) zero s h e = ground arith
short n (x ∷ ss) (suc i) s h e = short n ss i s (ground arith) e

-- Both formats leave room in their buffer.
command_fits :
    (output : ℕ) (m l f : Str)
    → length m ≤ 255
    → length l ≤ 7
    → length f < 2 ^ 28
    → int_lt (length (command output m l f)) (command_len output m l f) ≡ true
command_fits output m l f hm hl hf =
    ground (arith, length-join (stdout_command m l f), length-join (file_command m l f))

accepted :
    (output : ℕ)
    → (output ≡ dest_stdout) ⊎ (output ≡ dest_file)
    → (not (output == dest_stdout) && not (output == dest_file)) ≡ false
accepted output dest = ground arith

-- For a module and a level that exist, an output that is the console or the file, a configuration file
-- with a name shorter than 2^28 and memory for the command, `bf_sys_log_level_set` runs the command
-- whole, reloads the file, and returns what the reload gives.
pub level_set-runs :
    (env : Env) (i output level : ℕ) (m l f : Str) (st : LogState)
    → (output ≡ dest_stdout) ⊎ (output ≡ dest_file)
    → get_elem? zlog_cat_name i ≡ some m
    → get_elem? zlog_cfg_level_name level ≡ some l
    → st.cur_log_file ≡ some f
    → length f < 2 ^ 28
    → env.malloc (command_len output m l f) ≡ true
    → bf_sys_log_level_set env i output level st
      ≡ done (
        if env.reload f == 0 then 0 else minus_one,
        record st { commands = command output m l f ∷ st.commands; reloads = f ∷ st.reloads },
      )
unfolding bf_sys_log_level_set
level_set-runs env i output level m l f st dest em el ef hf mem =
    rw
      (
        lt→ltb (u32 (i + 2 ^ 31)) (u32 (bf_mod_max + 2 ^ 31)) (omega (arith, hi)),
        lt→not-leb (2 ^ 31) i (omega (arith, hi)),
        le→not-ltb (u32 (bf_log_max + 2 ^ 31)) (u32 (level + 2 ^ 31)) (omega (arith, hl)),
        lt→not-leb (2 ^ 31) level (omega (arith, hl)),
        accepted output dest,
        em,
        el,
        ef,
        take-all 255 m short_m,
        take-all 7 l short_l,
        mem,
        command_fits output m l f short_m short_l hf,
      )
      refl
  where
    hi : i < 25
    hi = lt_of_get_elem? zlog_cat_name i m em

    hl : level < 6
    hl = lt_of_get_elem? zlog_cfg_level_name level l el

    short_m : length m ≤ 255
    short_m = short 255 zlog_cat_name i m refl em

    short_l : length l ≤ 7
    short_l = short 7 zlog_cfg_level_name level l refl el

take-cut : (n : ℕ) (s : Str) → n < length s → take n s ≢ s
take-cut n s h e = absurd (omega (arith, length-take n s, ap length e))

syslog_length : (l f : Str) → length (join (syslog_command l f)) ≡ 53 + 2 * length f + length l
syslog_length l f = omega (arith, length-join (syslog_command l f))

-- For a level that exists and a shell that runs, `bf_sys_syslog_level_set` runs the first 99 bytes of
-- its command and returns what the reload gives; these are the whole command if the file's name and
-- the level's, with the name counted twice, have at most 46 bytes, and are cut off otherwise.
pub syslog_level_set-runs :
    (env : Env) (level : ℕ) (l f : Str) (st : LogState)
    → get_elem? zlog_cfg_level_name level ≡ some l
    → st.cur_log_file ≡ some f
    → negative (env.system (take 99 (join (syslog_command l f)))) ≡ false
    → (bf_sys_syslog_level_set env level st
        ≡ done (
          if env.reload f == 0 then 0 else minus_one,
          record st {
            commands = take 99 (join (syslog_command l f)) ∷ st.commands;
            reloads = f ∷ st.reloads;
          },
        ))
      × (((2 * length f + length l ≤ 46)
            × (take 99 (join (syslog_command l f)) ≡ join (syslog_command l f)))
          ⊎ ((46 < 2 * length f + length l)
              × (take 99 (join (syslog_command l f)) ≢ join (syslog_command l f))))
unfolding bf_sys_syslog_level_set
syslog_level_set-runs env level l f st el ef ok = (runs, whole)
  where
    hl : level < 6
    hl = lt_of_get_elem? zlog_cfg_level_name level l el

    short_l : length l ≤ 7
    short_l = short 7 zlog_cfg_level_name level l refl el

    runs :
        bf_sys_syslog_level_set env level st
        ≡ done (
          if env.reload f == 0 then 0 else minus_one,
          record st {
            commands = take 99 (join (syslog_command l f)) ∷ st.commands;
            reloads = f ∷ st.reloads;
          },
        )
    runs =
        rw
          (
            le→not-ltb (u32 (bf_log_max + 2 ^ 31)) (u32 (level + 2 ^ 31)) (omega (arith, hl)),
            el,
            ef,
            take-all 7 l short_l,
            ok,
          )
          refl

    whole :
        ((2 * length f + length l ≤ 46)
          × (take 99 (join (syslog_command l f)) ≡ join (syslog_command l f)))
        ⊎ ((46 < 2 * length f + length l)
            × (take 99 (join (syslog_command l f)) ≢ join (syslog_command l f)))
    whole = elim (dec_lt 46 (2 * length f + length l)) [
      | yes h ↦ inr (h, take-cut 99 (join (syslog_command l f)) (omega (arith, syslog_length l f)))
      | no h ↦
          inl (
            omega arith,
            take-all 99 (join (syslog_command l f)) (omega (arith, syslog_length l f)),
          )
    ]
