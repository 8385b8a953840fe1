-- ===== src/Sem/RwLock/Wake.antt =====
-- If no wait fails, the lock is never free with all waiting threads asleep.
use target_syslibs.Base.{
  ℕ, ◌^◌, ◌<◌, ◌≡◌, ◌≢◌, refl, true, false, Bool-cases, inl, inr, arith, dec_lt,
}
use target_syslibs.Base.Threads.{assign, tally, tally-zero, tally-pos}
use target_syslibs.Sem.RwLock.{
  Lock, Thread, idle, reading, writing, r_asleep, r_woken, w_asleep, w_woken, reader, writer,
  Signal, silent, one_writer, all_readers, Wakes, no_signal, woke_one, woke_none, woke_all,
  rdlock_enter, wrlock_enter, rdlock_resume, wrlock_resume, rdunlock_part, wrunlock_part,
  busy_for_reader, busy_for_writer, System, Step, rd_call, wr_call, rd_resume, wr_resume, rd_unlock,
  wr_unlock, spurious_reader, spurious_writer, Reach, start, later,
}
use target_syslibs.Sem.RwLock.Count.{
  assign-Shift, wake_reader-Broadcast, Bounds, tally-Bounds, is_r_asleep, is_w_asleep, is_w_woken,
}
use target_syslibs.Sem.RwLock.Inv.{Inv}
use target_syslibs.Sem.RwLock.Moves.{Reach-Inv, rd_unlock-Inv, wr_unlock-Inv}

-- A free lock that writers wait for has woken one, and one that only readers wait for has woken all.
pub record Awake (n : ℕ) (l : Lock) (pc : ℕ → Thread) : Type 0 where
  pub writers : l.w_active ≡ 0 → l.r_active ≡ 0 → 0 < l.w_wait → 0 < tally is_w_woken n pc
  pub readers : l.w_active ≡ 0 → l.w_wait ≡ 0 → tally is_r_asleep n pc ≡ 0

module _ {n : ℕ} (few : n < 2 ^ 31) {l : Lock} {pc : ℕ → Thread} (inv : Inv n l pc)
    (aw : Awake n l pc) (i : ℕ) (hi : i < n) where
  bounds : Bounds n pc
  bounds = tally-Bounds n pc

  rd_call-Awake : pc i ≡ idle → Awake n (rdlock_enter l).1 (assign pc i (reader (rdlock_enter l).0))
  unfolding rdlock_enter
  rd_call-Awake e = elim (Bool-cases (busy_for_reader l)) [
    | inl busy ↦ let sh = assign-Shift n pc i idle r_asleep hi e in rw busy (ground (arith, bounds))
    | inr free ↦ let sh = assign-Shift n pc i idle reading hi e in rw free (ground (arith, bounds))
  ]

  wr_call-Awake : pc i ≡ idle → Awake n (wrlock_enter l).1 (assign pc i (writer (wrlock_enter l).0))
  unfolding wrlock_enter
  wr_call-Awake e = elim (Bool-cases (busy_for_writer l)) [
    | inl busy ↦ let sh = assign-Shift n pc i idle w_asleep hi e in rw busy (ground (arith, bounds))
    | inr free ↦ let sh = assign-Shift n pc i idle writing hi e in rw free (ground (arith, bounds))
  ]

  rd_resume-Awake :
      pc i ≡ r_woken
      → Awake n (rdlock_resume false l).1 (assign pc i (reader (rdlock_resume false l).0))
  unfolding rdlock_resume
  rd_resume-Awake e = elim (Bool-cases (busy_for_reader l)) [
    | inl busy ↦
        let sh = assign-Shift n pc i r_woken r_asleep hi e in rw busy (ground (arith, bounds))
    | inr free ↦
        let sh = assign-Shift n pc i r_woken reading hi e in rw free (ground (arith, bounds))
  ]

  wr_resume-Awake :
      pc i ≡ w_woken
      → Awake n (wrlock_resume false l).1 (assign pc i (writer (wrlock_resume false l).0))
  unfolding wrlock_resume
  wr_resume-Awake e = elim (Bool-cases (busy_for_writer l)) [
    | inl busy ↦
        let sh = assign-Shift n pc i w_woken w_asleep hi e in rw busy (ground (arith, bounds))
    | inr free ↦
        let sh = assign-Shift n pc i w_woken writing hi e in rw free (ground (arith, bounds))
  ]

  spurious_reader-Awake : pc i ≡ r_asleep → Awake n l (assign pc i r_woken)
  spurious_reader-Awake e = let sh = assign-Shift n pc i r_asleep r_woken hi e in ground arith

  spurious_writer-Awake : pc i ≡ w_asleep → Awake n l (assign pc i w_woken)
  spurious_writer-Awake e = let sh = assign-Shift n pc i w_asleep w_woken hi e in ground arith

-- What an unlocking part has to do before its signal.
abbrev Owes : ℕ → Lock → (ℕ → Thread) → Signal → Type 0
Owes n l pc silent = Awake n l pc
Owes n l pc one_writer = 0 < l.w_wait
Owes n l pc all_readers = l.w_wait ≡ 0

asleep_of : (t : Thread) → 0 < is_w_asleep t → t ≡ w_asleep
asleep_of t h = ground arith

none_asleep :
    (n : ℕ) (pc : ℕ → Thread) → ((j : ℕ) → j < n → pc j ≢ w_asleep) → tally is_w_asleep n pc ≡ 0
none_asleep n pc none = elim (dec_lt 0 (tally is_w_asleep n pc)) [
  | yes some ↦
      let (j, hj, pos) = tally-pos is_w_asleep n pc some in
      absurd (none j hj (asleep_of (pc j) pos))
  | no zero_sum ↦ omega arith
]

Wakes-Awake :
    {n : ℕ} {l : Lock} {pc pc' : ℕ → Thread} {g : Signal}
    → Inv n l pc
    → Owes n l pc g
    → Wakes n pc g pc'
    → Awake n l pc'
Wakes-Awake inv owes no_signal = owes
Wakes-Awake {n} {l} {pc} inv owes (woke_one j hj e) =
    let sh = assign-Shift n pc j w_asleep w_woken hj e in ground arith
Wakes-Awake {n} {l} {pc} inv owes (woke_none none) = ground (arith, none_asleep n pc none)
Wakes-Awake {n} {l} {pc} inv owes woke_all = let all = wake_reader-Broadcast n pc in ground arith

module _ {n : ℕ} (few : n < 2 ^ 31) {l : Lock} {pc : ℕ → Thread} (inv : Inv n l pc)
    (aw : Awake n l pc) (i : ℕ) (hi : i < n) where
  rd_unlock-Owes :
      pc i ≡ reading → Owes n (rdunlock_part l).1 (assign pc i idle) (rdunlock_part l).0
  unfolding rdunlock_part
  rd_unlock-Owes e =
      let sh = assign-Shift n pc i reading idle hi e in ground (arith, tally-Bounds n pc)

  wr_unlock-Owes :
      pc i ≡ writing → Owes n (wrunlock_part l).1 (assign pc i idle) (wrunlock_part l).0
  unfolding wrunlock_part
  wr_unlock-Owes e =
      let sh = assign-Shift n pc i writing idle hi e in ground (arith, tally-Bounds n pc)

Step-Awake :
    {n : ℕ} {s t : System}
    → n < 2 ^ 31
    → Inv n s.lock s.pc
    → Awake n s.lock s.pc
    → Step false n s t
    → Awake n t.lock t.pc
Step-Awake few inv aw (rd_call i hi e) = rd_call-Awake few inv aw i hi e
Step-Awake few inv aw (wr_call i hi e) = wr_call-Awake few inv aw i hi e
Step-Awake few inv aw (rd_resume i true hi e f) = absurd (ground arith)
Step-Awake few inv aw (rd_resume i false hi e f) = rd_resume-Awake few inv aw i hi e
Step-Awake few inv aw (wr_resume i true hi e f) = absurd (ground arith)
Step-Awake few inv aw (wr_resume i false hi e f) = wr_resume-Awake few inv aw i hi e
Step-Awake few inv aw (rd_unlock i pc' hi e w) =
    Wakes-Awake (rd_unlock-Inv few inv i hi e) (rd_unlock-Owes few inv aw i hi e) w
Step-Awake few inv aw (wr_unlock i pc' hi e w) =
    Wakes-Awake (wr_unlock-Inv few inv i hi e) (wr_unlock-Owes few inv aw i hi e) w
Step-Awake few inv aw (spurious_reader i hi e) = spurious_reader-Awake few inv aw i hi e
Step-Awake few inv aw (spurious_writer i hi e) = spurious_writer-Awake few inv aw i hi e

pub Reach-Awake : {n : ℕ} {s : System} → n < 2 ^ 31 → Reach false n s → Awake n s.lock s.pc
Reach-Awake {n} few start = record {
  writers = λ a b h. absurd (omega arith);
  readers = λ a b. tally-zero is_r_asleep n (λ _. idle) (λ _. refl);
}
Reach-Awake few (later r st) = Step-Awake few (Reach-Inv few r) (Reach-Awake few r) st
