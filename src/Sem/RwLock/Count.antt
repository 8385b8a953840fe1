-- ===== src/Sem/RwLock/Count.antt =====
-- How many threads are where, and how a move of one thread changes that.
use target_syslibs.Base.{ℕ, zero, suc, ◌+◌, ◌≤◌, ◌<◌, ◌≡◌, sym, ap, ◌∙◌, arith}
use target_syslibs.Base.Threads.{assign, tally, tally-assign}
use target_syslibs.Sem.RwLock.{
  Thread, reading, writing, r_asleep, r_woken, w_asleep, w_woken, wake_reader,
}

abbrev pub is_reading : Thread → ℕ
is_reading reading = 1
is_reading t = 0

abbrev pub is_writing : Thread → ℕ
is_writing writing = 1
is_writing t = 0

abbrev pub is_r_asleep : Thread → ℕ
is_r_asleep r_asleep = 1
is_r_asleep t = 0

abbrev pub is_r_woken : Thread → ℕ
is_r_woken r_woken = 1
is_r_woken t = 0

abbrev pub is_w_asleep : Thread → ℕ
is_w_asleep w_asleep = 1
is_w_asleep t = 0

abbrev pub is_w_woken : Thread → ℕ
is_w_woken w_woken = 1
is_w_woken t = 0

-- One thread goes from `a` to `b`.
pub record Shift (n : ℕ) (pc pc' : ℕ → Thread) (a b : Thread) : Type 0 where
  pub reads : tally is_reading n pc' + is_reading a ≡ tally is_reading n pc + is_reading b
  pub writes : tally is_writing n pc' + is_writing a ≡ tally is_writing n pc + is_writing b
  pub r_sleeps : tally is_r_asleep n pc' + is_r_asleep a ≡ tally is_r_asleep n pc + is_r_asleep b
  pub r_wakes : tally is_r_woken n pc' + is_r_woken a ≡ tally is_r_woken n pc + is_r_woken b
  pub w_sleeps : tally is_w_asleep n pc' + is_w_asleep a ≡ tally is_w_asleep n pc + is_w_asleep b
  pub w_wakes : tally is_w_woken n pc' + is_w_woken a ≡ tally is_w_woken n pc + is_w_woken b

pub assign-Shift :
    (n : ℕ) (pc : ℕ → Thread) (i : ℕ) (a b : Thread)
    → i < n
    → pc i ≡ a
    → Shift n pc (assign pc i b) a b
assign-Shift n pc i a b hi e = record {
  reads = shift is_reading;
  writes = shift is_writing;
  r_sleeps = shift is_r_asleep;
  r_wakes = shift is_r_woken;
  w_sleeps = shift is_w_asleep;
  w_wakes = shift is_w_woken;
}
  where
    shift : (w : Thread → ℕ) → tally w n (assign pc i b) + w a ≡ tally w n pc + w b
    shift w = ap (λ t. tally w n (assign pc i b) + w t) (sym e) ∙ tally-assign w n pc i b hi

-- All sleeping readers wake.
pub record Broadcast (n : ℕ) (pc pc' : ℕ → Thread) : Type 0 where
  pub reads : tally is_reading n pc' ≡ tally is_reading n pc
  pub writes : tally is_writing n pc' ≡ tally is_writing n pc
  pub r_sleeps : tally is_r_asleep n pc' ≡ 0
  pub r_wakes : tally is_r_woken n pc' ≡ tally is_r_asleep n pc + tally is_r_woken n pc
  pub w_sleeps : tally is_w_asleep n pc' ≡ tally is_w_asleep n pc
  pub w_wakes : tally is_w_woken n pc' ≡ tally is_w_woken n pc

pub wake_reader-Broadcast : (n : ℕ) (pc : ℕ → Thread) → Broadcast n pc (λ j. wake_reader (pc j))
unfolding tally
wake_reader-Broadcast zero pc = ground arith
wake_reader-Broadcast (suc n) pc = let rest = wake_reader-Broadcast n pc in ground (arith, rest)

-- No count is larger than the number of threads.
pub record Bounds (n : ℕ) (pc : ℕ → Thread) : Type 0 where
  pub reads : tally is_reading n pc ≤ n
  pub writes : tally is_writing n pc ≤ n
  pub r_waits : tally is_r_asleep n pc + tally is_r_woken n pc ≤ n
  pub w_waits : tally is_w_asleep n pc + tally is_w_woken n pc ≤ n

pub tally-Bounds : (n : ℕ) (pc : ℕ → Thread) → Bounds n pc
unfolding tally
tally-Bounds zero pc = ground arith
tally-Bounds (suc n) pc = let rest = tally-Bounds n pc in ground (arith, rest)
