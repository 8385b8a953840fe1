-- ===== src/Dma/Address/Index.antt =====
-- `bf_sys_dma_buffer_index` inverts the layout of the buffers.
use native.Mathlib.Nat.{mul-add-div_right, div-eq_of_lt, le-div_iff_mul-le, div-le_self}
use target_syslibs.Base.{ℕ, ◌+◌, ◌*◌, ◌/◌, ◌^◌, ◌≤◌, ◌<◌, ◌≡◌, ◌⊎◌, refl, ap, ◌∙◌, arith}
use target_syslibs.Base.Outcome.{done, aborted}
use target_syslibs.Base.Words.{sub64}
use target_syslibs.Dma.Pool.{Pool}
use target_syslibs.Dma.Address.{bf_sys_dma_buffer_index}

-- Buffers of a positive size that lie one after the other below 2^64.
pub record IsLaidOut (p : Pool) : Type 0 where
  pub positive : 0 < p.buf_size
  pub few : p.buf_cnt < 2 ^ 31
  pub in_memory : p.pool_ptr + p.buf_cnt * p.buf_size < 2 ^ 64

-- The test of the assert, at a quotient that is the index.
index_test :
    (p : Pool) (v q : ℕ)
    → 0 < p.buf_size
    → p.buf_cnt < 2 ^ 31
    → sub64 v p.pool_ptr / p.buf_size ≡ q
    → q < 2 ^ 64
    → (q < p.buf_cnt → bf_sys_dma_buffer_index p v ≡ done q)
      × (p.buf_cnt ≤ q → bf_sys_dma_buffer_index p v ≡ aborted)
unfolding bf_sys_dma_buffer_index
index_test p v q pos few e lt = (λ h. rw e (ground arith), λ h. rw e (ground arith))

module _ {p : Pool} (lay : IsLaidOut p) where
  -- For buffers of a positive size, fewer than 2^31 and below 2^64, `bf_sys_dma_buffer_index` of any
  -- address inside buffer number `i` is `i`.
  pub buffer_index_inside :
      (i d : ℕ)
      → i < p.buf_cnt
      → d < p.buf_size
      → bf_sys_dma_buffer_index p (p.pool_ptr + i * p.buf_size + d) ≡ done i
  buffer_index_inside i d hi hd =
      (index_test p _ i lay.positive lay.few quotient (omega (arith, lay.few))).0 hi
    where
      below : i * p.buf_size + d < p.buf_cnt * p.buf_size
      below = grind arith

      quotient : sub64 (p.pool_ptr + i * p.buf_size + d) p.pool_ptr / p.buf_size ≡ i
      quotient =
          ap (λ (t : ℕ). t / p.buf_size) {y = i * p.buf_size + d}
            (omega (arith, below, lay.in_memory))
          ∙ (mul-add-div_right lay.positive i d ∙ omega (arith, div-eq_of_lt hd))

  -- For buffers of a positive size, fewer than 2^31 and below 2^64, an address before the first or
  -- behind the last of them makes `bf_sys_dma_buffer_index` stop the process by its assert.
  buffer_index_outside :
      (v : ℕ)
      → v < 2 ^ 64
      → (v < p.pool_ptr) ⊎ (p.pool_ptr + p.buf_cnt * p.buf_size ≤ v)
      → bf_sys_dma_buffer_index p v ≡ aborted
  buffer_index_outside v lt out =
      (index_test p v (sub64 v p.pool_ptr / p.buf_size) lay.positive lay.few refl small).1 big
    where
      diff : ℕ
      diff = sub64 v p.pool_ptr

      far : p.buf_cnt * p.buf_size ≤ diff
      far = ground (arith, lay.in_memory)

      big : p.buf_cnt ≤ diff / p.buf_size
      big = (le-div_iff_mul-le lay.positive).1 far

      small : diff / p.buf_size < 2 ^ 64
      small = omega (arith, div-le_self diff p.buf_size)
