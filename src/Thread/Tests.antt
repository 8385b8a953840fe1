-- ===== src/Thread/Tests.antt =====
-- The theorem on threads at a library where the third thread cannot be started.
use target_syslibs.Base.{ℕ, ◌+◌, ◌≡◌, List, [], ◌∷◌, ◌++◌, map}
use target_syslibs.Base.Outcome.{done}
use target_syslibs.Thread.Reports.{start_all, exit_all, join_all, NoneOrRefused, join-exit}
use target_syslibs.Thread.Toy.{World, at, toy, toy-IsPosix}

abbrev args : List ℕ
args = 7 ∷ 8 ∷ 9 ∷ []

abbrev value : (fn arg : ℕ) → ℕ
value fn arg = fn + arg

join-exit_example :
    (hs served left : List ℕ) × (w₁ w₂ : World) × (start_all toy 64 args [] ≡ done (hs, w₁))
    × (args ≡ served ++ left)
    × NoneOrRefused toy 64 left w₁
    × (join_all toy 5 hs (exit_all toy at value hs w₁) ≡ done (map (value 64) served, w₂))
join-exit_example = join-exit toy-IsPosix value 5 64 args []
