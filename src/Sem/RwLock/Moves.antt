-- ===== src/Sem/RwLock/Moves.antt =====
-- Every part of every call keeps the counters equal to the numbers of threads.
use target_syslibs.Base.{
  ℕ, ◌^◌, ◌<◌, ◌≡◌, refl, sym, Bool, true, false, Bool-cases, inl, inr, arith,
}
use target_syslibs.Base.Threads.{assign, tally-zero}
use target_syslibs.Sem.RwLock.{
  Lock, Thread, idle, reading, writing, r_asleep, r_woken, w_asleep, w_woken, reader, writer,
  Signal, Wakes, no_signal, woke_one, woke_none, woke_all, rdlock_enter, wrlock_enter,
  rdlock_resume, wrlock_resume, rdunlock_part, wrunlock_part, busy_for_reader, busy_for_writer,
  System, Step, rd_call, wr_call, rd_resume, wr_resume, rd_unlock, wr_unlock, spurious_reader,
  spurious_writer, Reach, start, later,
}
use target_syslibs.Sem.RwLock.Count.{
  assign-Shift, wake_reader-Broadcast, Bounds, tally-Bounds, is_reading, is_writing, is_r_asleep,
  is_r_woken, is_w_asleep, is_w_woken,
}
use target_syslibs.Sem.RwLock.Inv.{Inv}

module _ {n : ℕ} (few : n < 2 ^ 31) {l : Lock} {pc : ℕ → Thread} (inv : Inv n l pc) (i : ℕ)
    (hi : i < n) where
  bounds : Bounds n pc
  bounds = tally-Bounds n pc

  rd_call-Inv : pc i ≡ idle → Inv n (rdlock_enter l).1 (assign pc i (reader (rdlock_enter l).0))
  unfolding rdlock_enter
  rd_call-Inv e = elim (Bool-cases (busy_for_reader l)) [
    | inl busy ↦ let sh = assign-Shift n pc i idle r_asleep hi e in rw busy (ground (arith, bounds))
    | inr free ↦ let sh = assign-Shift n pc i idle reading hi e in rw free (ground (arith, bounds))
  ]

  wr_call-Inv : pc i ≡ idle → Inv n (wrlock_enter l).1 (assign pc i (writer (wrlock_enter l).0))
  unfolding wrlock_enter
  wr_call-Inv e = elim (Bool-cases (busy_for_writer l)) [
    | inl busy ↦ let sh = assign-Shift n pc i idle w_asleep hi e in rw busy (ground (arith, bounds))
    | inr free ↦ let sh = assign-Shift n pc i idle writing hi e in rw free (ground (arith, bounds))
  ]

  rd_resume-Inv :
      (error : Bool)
      → pc i ≡ r_woken
      → Inv n (rdlock_resume error l).1 (assign pc i (reader (rdlock_resume error l).0))
  unfolding rdlock_resume
  rd_resume-Inv true e = let sh = assign-Shift n pc i r_woken idle hi e in ground (arith, bounds)
  rd_resume-Inv false e = elim (Bool-cases (busy_for_reader l)) [
    | inl busy ↦
        let sh = assign-Shift n pc i r_woken r_asleep hi e in rw busy (ground (arith, bounds))
    | inr free ↦
        let sh = assign-Shift n pc i r_woken reading hi e in rw free (ground (arith, bounds))
  ]

  wr_resume-Inv :
      (error : Bool)
      → pc i ≡ w_woken
      → Inv n (wrlock_resume error l).1 (assign pc i (writer (wrlock_resume error l).0))
  unfolding wrlock_resume
  wr_resume-Inv true e = let sh = assign-Shift n pc i w_woken idle hi e in ground (arith, bounds)
  wr_resume-Inv false e = elim (Bool-cases (busy_for_writer l)) [
    | inl busy ↦
        let sh = assign-Shift n pc i w_woken w_asleep hi e in rw busy (ground (arith, bounds))
    | inr free ↦
        let sh = assign-Shift n pc i w_woken writing hi e in rw free (ground (arith, bounds))
  ]

  pub rd_unlock-Inv : pc i ≡ reading → Inv n (rdunlock_part l).1 (assign pc i idle)
  unfolding rdunlock_part
  rd_unlock-Inv e = let sh = assign-Shift n pc i reading idle hi e in ground (arith, bounds)

  pub wr_unlock-Inv : pc i ≡ writing → Inv n (wrunlock_part l).1 (assign pc i idle)
  unfolding wrunlock_part
  wr_unlock-Inv e = let sh = assign-Shift n pc i writing idle hi e in ground (arith, bounds)

  spurious_reader-Inv : pc i ≡ r_asleep → Inv n l (assign pc i r_woken)
  spurious_reader-Inv e = let sh = assign-Shift n pc i r_asleep r_woken hi e in ground arith

  spurious_writer-Inv : pc i ≡ w_asleep → Inv n l (assign pc i w_woken)
  spurious_writer-Inv e = let sh = assign-Shift n pc i w_asleep w_woken hi e in ground arith

-- A signal moves waiting threads only.
Wakes-Inv :
    {n : ℕ} {l : Lock} {pc pc' : ℕ → Thread} {g : Signal}
    → Inv n l pc
    → Wakes n pc g pc'
    → Inv n l pc'
Wakes-Inv inv no_signal = inv
Wakes-Inv {n} {l} {pc} inv (woke_one j hj e) =
    let sh = assign-Shift n pc j w_asleep w_woken hj e in ground arith
Wakes-Inv inv (woke_none none) = inv
Wakes-Inv {n} {l} {pc} inv woke_all = let all = wake_reader-Broadcast n pc in ground arith

Step-Inv :
    {fails : Bool} {n : ℕ} {s t : System}
    → n < 2 ^ 31
    → Inv n s.lock s.pc
    → Step fails n s t
    → Inv n t.lock t.pc
Step-Inv few inv (rd_call i hi e) = rd_call-Inv few inv i hi e
Step-Inv few inv (wr_call i hi e) = wr_call-Inv few inv i hi e
Step-Inv few inv (rd_resume i error hi e f) = rd_resume-Inv few inv i hi error e
Step-Inv few inv (wr_resume i error hi e f) = wr_resume-Inv few inv i hi error e
Step-Inv few inv (rd_unlock i pc' hi e w) = Wakes-Inv (rd_unlock-Inv few inv i hi e) w
Step-Inv few inv (wr_unlock i pc' hi e w) = Wakes-Inv (wr_unlock-Inv few inv i hi e) w
Step-Inv few inv (spurious_reader i hi e) = spurious_reader-Inv few inv i hi e
Step-Inv few inv (spurious_writer i hi e) = spurious_writer-Inv few inv i hi e

start-Inv :
    (n : ℕ) → Inv n (record { r_active = 0; w_active = 0; r_wait = 0; w_wait = 0 }) (λ _. idle)
start-Inv n = record {
  readers = sym (tally-zero is_reading n (λ _. idle) (λ _. refl));
  writers = sym (tally-zero is_writing n (λ _. idle) (λ _. refl));
  r_waiters = omega (
    arith,
    tally-zero is_r_asleep n (λ _. idle) (λ _. refl),
    tally-zero is_r_woken n (λ _. idle) (λ _. refl),
  );
  w_waiters = omega (
    arith,
    tally-zero is_w_asleep n (λ _. idle) (λ _. refl),
    tally-zero is_w_woken n (λ _. idle) (λ _. refl),
  );
  one_writer = omega arith;
  alone = λ e. refl;
}

pub Reach-Inv :
    {fails : Bool} {n : ℕ} {s : System} → n < 2 ^ 31 → Reach fails n s → Inv n s.lock s.pc
Reach-Inv {n = n} few start = start-Inv n
Reach-Inv few (later r st) = Step-Inv few (Reach-Inv few r) st
