-- ===== src/Sem/RwLock/Run.antt =====
-- Reachable states by evaluation: in each turn one thread runs its next part. A signal goes to the
-- sleeping writer of the lowest number.
use target_syslibs.Base.{
  ℕ, zero, suc, ◌<◌, ◌≡◌, ◌≢◌, ◌⊎◌, inl, inr, refl, false, List, [], ◌∷◌, dec_lt, ℕ_discrete, arith,
}
use target_syslibs.Base.Threads.{assign}
use target_syslibs.Sem.RwLock.{
  Thread, idle, reading, writing, r_asleep, r_woken, w_asleep, w_woken, wake_reader, Signal, silent,
  one_writer, all_readers, Wakes, no_signal, woke_one, woke_none, woke_all, rdunlock_part,
  wrunlock_part, System, rd_call, wr_call, rd_resume, wr_resume, rd_unlock, wr_unlock,
  spurious_reader, spurious_writer, start_state, Reach, start, later,
}

sleeps : (t : Thread) → (t ≡ w_asleep) ⊎ (t ≢ w_asleep)
sleeps w_asleep = inl refl
sleeps idle = inr (λ e. ground arith)
sleeps reading = inr (λ e. ground arith)
sleeps writing = inr (λ e. ground arith)
sleeps r_asleep = inr (λ e. ground arith)
sleeps r_woken = inr (λ e. ground arith)
sleeps w_woken = inr (λ e. ground arith)

first_asleep :
    (n : ℕ) (pc : ℕ → Thread)
    → ((j : ℕ) × (j < n) × (pc j ≡ w_asleep)) ⊎ ((j : ℕ) → j < n → pc j ≢ w_asleep)
unfolding sleeps ℕ_discrete
first_asleep zero pc = inr (λ j h. absurd (omega arith))
first_asleep (suc n) pc = elim (first_asleep n pc) [
  | inl (j, h, e) ↦ inl (j, omega arith, e)
  | inr none ↦ elim (sleeps (pc n)) [
    | inl e ↦ inl (n, omega arith, e)
    | inr ne ↦ inr (λ j h e. elim (ℕ_discrete j n) [
      | yes same ↦ ne (rw same at e)
      | no other ↦ none j (omega arith) e
    ])
  ]
]

pub woken : (n : ℕ) (pc : ℕ → Thread) (g : Signal) → (pc' : ℕ → Thread) × Wakes n pc g pc'
unfolding first_asleep
woken n pc silent = (pc, no_signal)
woken n pc all_readers = ((λ j. wake_reader (pc j)), woke_all)
woken n pc one_writer = elim (first_asleep n pc) [
  | inl (j, h, e) ↦ (assign pc j w_woken, woke_one j h e)
  | inr none ↦ (pc, woke_none none)
]

pub record Run (n : ℕ) : Type 0 where
  pub last : System
  pub reach : Reach false n last

-- What an idle thread asks for.
pub data Wish : Type 0 where
  to_read to_write : Wish

part : {n : ℕ} (r : Run n) (w : Wish) (i : ℕ) → i < n → (t : Thread) → r.last.pc i ≡ t → Run n
unfolding woken
part r to_read i h idle e = record { last = _; reach = later r.reach (rd_call i h e) }
part r to_write i h idle e = record { last = _; reach = later r.reach (wr_call i h e) }
part {n} r w i h reading e =
    let (pc', k) = woken n (assign r.last.pc i idle) (rdunlock_part r.last.lock).0 in
    record { last = _; reach = later r.reach (rd_unlock i pc' h e k) }
part {n} r w i h writing e =
    let (pc', k) = woken n (assign r.last.pc i idle) (wrunlock_part r.last.lock).0 in
    record { last = _; reach = later r.reach (wr_unlock i pc' h e k) }
part r w i h r_asleep e = record { last = _; reach = later r.reach (spurious_reader i h e) }
part r w i h w_asleep e = record { last = _; reach = later r.reach (spurious_writer i h e) }
part r w i h r_woken e = record {
  last = _;
  reach = later r.reach (rd_resume i false h e (λ f. absurd (ground arith)));
}
part r w i h w_woken e = record {
  last = _;
  reach = later r.reach (wr_resume i false h e (λ f. absurd (ground arith)));
}

turns : {n : ℕ} → Run n → List (Wish × ℕ) → Run n
unfolding part dec_lt
turns r [] = r
turns {n} r ((w, i) ∷ rest) = elim (dec_lt i n) [
  | yes h ↦ turns (part r w i h (r.last.pc i) refl) rest
  | no _ ↦ turns r rest
]

unfoldable pub run : (n : ℕ) → List (Wish × ℕ) → Run n
unfolding turns
run n order = turns (record { last = start_state; reach = start }) order
