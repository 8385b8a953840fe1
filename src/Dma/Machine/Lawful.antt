-- ===== src/Dma/Machine/Lawful.antt =====
-- What the code relies on of `calloc` and `mmap`.
use target_syslibs.Base.{ℕ, ◌+◌, ◌*◌, ◌%◌, ◌^◌, ◌≤◌, ◌<◌, ◌≡◌, Bool, some, List, ◌∷◌, ◌≢◌, false}
use target_syslibs.Dma.Align.{huge_page_size}
use target_syslibs.Dma.Machine.{Machine, Region, System, is_in}

-- A new block has an address that is not NULL and not in use, and an array too large for the
-- address space is refused. A mapping of huge pages starts at a huge page, lies in the 47 bits of
-- user space, and holds no block of the heap, neither an older one nor a newer one.
pub record IsLawful (s : System) : Type 0 where
  pub block_pos : (m : Machine) (elem size a : ℕ) → s.calloc m elem size ≡ some a → 0 < a
  pub block_new :
      (m : Machine) (elem size a : ℕ) → s.calloc m elem size ≡ some a → is_in a m.heap ≡ false
  pub block_fits :
      (m : Machine) (elem size a : ℕ) → s.calloc m elem size ≡ some a → elem * size < 2 ^ 63
  pub map_aligned :
      (m : Machine) (huge : Bool) (len b : ℕ) → s.mmap m huge len ≡ some b → b % huge_page_size ≡ 0
  pub map_user :
      (m : Machine) (huge : Bool) (len b : ℕ)
      → s.mmap m huge len ≡ some b
      → (0 < b) × (0 < len) × (b + len < 2 ^ 47)
  pub map_no_block :
      (m : Machine) (huge : Bool) (len b a : ℕ)
      → s.mmap m huge len ≡ some b
      → b ≤ a
      → a ≤ b + len
      → is_in a m.heap ≡ false
  pub block_unmapped :
      (m : Machine) (elem size a x : ℕ) (r : Region) (rs : List Region)
      → s.calloc m elem size ≡ some a
      → m.regions ≡ r ∷ rs
      → r.base ≤ x
      → x ≤ r.base + r.len
      → a ≢ x
