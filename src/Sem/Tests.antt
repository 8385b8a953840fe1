-- ===== src/Sem/Tests.antt =====
-- The theorems on making and deleting locks, with a library that gives ever higher addresses.
use target_syslibs.Base.{ℕ, ◌+◌, ◌<◌, ◌≡◌, refl, false, none, some, List, [], ◌∷◌, arith}
use target_syslibs.Base.Outcome.{done}
use target_syslibs.Sem.Store.{Store, Library, IsLawful, is_in}
use target_syslibs.Sem.Objects.{bf_sys_rwlock_init, bf_sys_rwlock_del}
use target_syslibs.Sem.Objects.Laws.{read_write, with_object, delete-make}
use target_syslibs.Sem.RwInit.{RwLock, bf_sys_rw_mutex_lock_init, bf_sys_rw_mutex_lock_del}
use target_syslibs.Sem.RwInit.Ready.{IsReady}
use target_syslibs.Sem.RwInit.Whole.{Inited, lock_init_lem, lock_del-init}

abbrev sum : List ℕ → ℕ
sum [] = 0
sum (x ∷ xs) = x + sum xs

abbrev counting : Library
counting = record {
  malloc = λ st. some (1 + sum st.heap);
  realloc = λ ptr size st. done (some ptr, st);
  init = λ k st a. 0;
  destroy = λ k st a. 0;
}

is_in-above : (xs : List ℕ) (a : ℕ) → sum xs < a → is_in a xs ≡ false
is_in-above [] a h = refl
is_in-above (x ∷ xs) a h = ground (arith, is_in-above xs a (omega arith))

counting-IsLawful : IsLawful counting
counting-IsLawful = record {
  fresh = λ st a e. is_in-above st.heap a (ground arith);
  not_null = λ st a e. ground arith;
  destroyed = λ k st a h. refl;
}

abbrev blank : Store
blank = record { heap = 5 ∷ []; live = [] }

delete-make_example :
    (bf_sys_rwlock_init counting blank ≡ done ((0, some 6), with_object blank 6))
    × (bf_sys_rwlock_del counting 6 (with_object blank 6) ≡ done ((0, none), blank))
delete-make_example = delete-make counting-IsLawful blank 6 refl read_write refl

abbrev new_lock : RwLock
new_lock = record {
  mutex = 0;
  read = 0;
  write = 0;
  r_active = 7;
  w_active = 0;
  r_wait = 0;
  w_wait = 0;
  valid = 0;
}

abbrev ready_lock : RwLock
ready_lock = record new_lock { mutex = 6; read = 12; write = 24; r_active = 0; valid = 1 }

abbrev full : Store
full = record { heap = 24 ∷ 12 ∷ 6 ∷ 5 ∷ []; live = 24 ∷ 12 ∷ 6 ∷ [] }

init_runs :
    bf_sys_rw_mutex_lock_init counting (some new_lock) blank ≡ done ((0, some ready_lock), full)
unfolding bf_sys_rw_mutex_lock_init
init_runs = refl

lock_init_lem_example : Inited blank (bf_sys_rw_mutex_lock_init counting (some new_lock) blank)
lock_init_lem_example = lock_init_lem counting-IsLawful new_lock blank (omega arith)

ready_lock-IsReady : IsReady ready_lock blank full
ready_lock-IsReady = record {
  valid = refl;
  r_active = refl;
  w_active = refl;
  r_wait = refl;
  w_wait = refl;
  heap = refl;
  live = refl;
  not_null = (refl, refl, refl);
  apart = (refl, refl, refl);
}

lock_del-init_example :
    bf_sys_rw_mutex_lock_del counting 0 0 (some ready_lock) full
    ≡ done ((0, some (record ready_lock { valid = 0 })), blank)
lock_del-init_example = lock_del-init counting-IsLawful ready_lock blank full ready_lock-IsReady
