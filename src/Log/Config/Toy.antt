-- ===== src/Log/Config/Toy.antt =====
-- A shell that carries out the one form of command, for the tests: it reads the parts of the edit back
-- from the text.
use target_syslibs.Base.{
  ℕ, ◌≡◌, refl, ap, Bool, true, false, List, [], ◌∷◌, ◌++◌, if◌then◌else◌, arith,
}
use target_syslibs.Log.Strings.{Str, bytes}
use target_syslibs.Log.Config.{
  Edit, edit_command, edited, is_literal, is_text, only, IsWritten, DoesEdits,
}

-- What follows a part of the length of `p`.
skip : Str → Str → Str
skip [] s = s
skip (c ∷ p) [] = []
skip (c ∷ p) (d ∷ s) = skip p s

-- The longest part at the front of characters with `p`, and what follows.
cut : (ℕ → Bool) → Str → Str × Str
cut p [] = ([], [])
cut p (c ∷ s) = let rest = cut p s in if p c then (c ∷ rest.0, rest.1) else ([], c ∷ s)

skip-append : (p s : Str) → skip p (p ++ s) ≡ s
unfolding skip
skip-append [] s = refl
skip-append (c ∷ p) s = skip-append p s

cut-append :
    (p : ℕ → Bool) (m : Str) (c : ℕ) (s : Str)
    → only p m ≡ true
    → p c ≡ false
    → cut p (m ++ (c ∷ s)) ≡ (m, c ∷ s)
unfolding cut
cut-append p [] c s h stop = rw stop refl
cut-append p (d ∷ m) c s h stop =
    let here : p d ≡ true = ground arith in rw (here, cut-append p m c s (ground arith) stop) refl

-- The parts of the command in turn.
read_line : (m q n r new : Str) → Str × Str → Edit
read_line m q n r new (line, s) = record { m = m; q = q; n = n; r = r; new = new; line = line }

read_new : (f m q n r : Str) → Str × Str → Edit
unfolding read_line
read_new f m q n r (new, s) =
    read_line m q n r new (cut is_text (skip (bytes " || echo '") (skip f (skip (bytes "/' ") s))))

read_r : (f m q n : Str) → Str × Str → Edit
unfolding read_new
read_r f m q n (r, s) = read_new f m q n r (cut is_text (skip (bytes "/") s))

read_n : (f m q : Str) → Str × Str → Edit
unfolding read_r
read_n f m q (n, s) = read_r f m q n (cut is_literal (skip (bytes ".*") s))

read_q : (f m : Str) → Str × Str → Edit
unfolding read_n
read_q f m (q, s) =
    read_n f m q (cut is_literal (skip (bytes " && sed -i 's/") (skip f (skip (bytes "\" ") s))))

read_m : (f : Str) → Str × Str → Edit
unfolding read_q
read_m f (m, s) = read_q f m (cut is_literal (skip (bytes ".*") s))

read : (f : Str) → Str → Edit
unfolding read_m
read f cmd = read_m f (cut is_literal (skip (bytes "grep -q \"") cmd))

pub toy_shell : Str → Str → List Str → List Str
unfolding read
toy_shell f cmd lines = edited (read f cmd) lines

read-edit_command : (e : Edit) (f : Str) → IsWritten e → read f (edit_command e f) ≡ e
unfolding read read_m read_q read_n read_r read_new read_line skip
read-edit_command e f ok = simp (
  skip-append,
  cut-append is_literal e.m 46 _ ok.m_ok refl,
  cut-append is_literal e.q 34 _ ok.q_ok refl,
  cut-append is_literal e.n 46 _ ok.n_ok refl,
  cut-append is_literal e.r 47 _ ok.r_ok refl,
  cut-append is_text e.new 47 _ ok.new_ok refl,
  cut-append is_text e.line 39 _ ok.line_ok refl,
)

pub toy_shell-DoesEdits : (f : Str) → DoesEdits f (toy_shell f)
unfolding toy_shell
toy_shell-DoesEdits f = record {
  edits = λ e lines ok. ap (λ (x : Edit). edited x lines) (read-edit_command e f ok);
}
