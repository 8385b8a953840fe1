-- ===== src/Dma/Toy.antt =====
-- A small system that keeps the laws of `calloc` and `mmap`, for the tests: blocks are numbered
-- upwards, and there is one mapping, at 2 MB.
use target_syslibs.Base.{
  ℕ, ◌+◌, ◌*◌, ◌/◌, ◌^◌, ◌≤◌, ◌<◌, ◌≡◌, refl, Bool, true, false, ◌&&◌, none, some, List, [], ◌∷◌,
  if◌then◌else◌, ltb, leb, ◌==◌, arith,
}
use target_syslibs.Dma.Align.{huge_page_size}
use target_syslibs.Dma.Address.{PageMapFile}
use target_syslibs.Dma.Machine.{Machine, Region, System, bf_sys_dma_map_fn_register, is_in}
use target_syslibs.Dma.Machine.Lawful.{IsLawful}

abbrev sum : List ℕ → ℕ
sum [] = 0
sum (x ∷ xs) = x + sum xs

abbrev edge : List Region → ℕ
edge [] = 0
edge (r ∷ rs) = r.base + r.len

-- Whether no element is from `lo` to `hi`.
abbrev clear : ℕ → ℕ → List ℕ → Bool
clear lo hi [] = true
clear lo hi (x ∷ xs) = if leb lo x && leb x hi then false else clear lo hi xs

abbrev frames : PageMapFile
frames = record {
  page_size = 4096;
  opens = true;
  seeks = λ _. true;
  entry = λ offset. some (offset / 8 + 16);
}

abbrev pub toy : System
toy = record {
  calloc = λ m elem size.
      if ltb (elem * size) (2 ^ 63) then some (1 + (sum m.heap + edge m.regions)) else none;
  mmap = λ m huge len.
      if ltb 0 len
        && ltb (huge_page_size + len) (2 ^ 47)
        && clear huge_page_size (huge_page_size + len) m.heap
      then some huge_page_size
      else none;
  pagemap = frames;
  map_fn = none;
  unmap_fn = none;
  pool_bytes = 256;
}

-- The same system without memory for large arrays of two words.
abbrev pub poor : System
poor = record toy { calloc = λ m elem size. if size == 16 then none else toy.calloc m elem size }

-- The same system with a bus that adds 2^32 to each address.
abbrev pub with_bus : System
with_bus =
    bf_sys_dma_map_fn_register (some (λ dev_id subdev_id phys. some (phys + 2 ^ 32)))
      (some (λ dev_id subdev_id dma. false)) toy

is_in-above : (xs : List ℕ) (a : ℕ) → sum xs < a → is_in a xs ≡ false
is_in-above [] a h = refl
is_in-above (x ∷ xs) a h = ground (arith, is_in-above xs a (omega arith))

is_in-clear :
    (xs : List ℕ) (lo hi a : ℕ) → clear lo hi xs ≡ true → lo ≤ a → a ≤ hi → is_in a xs ≡ false
is_in-clear [] lo hi a c l h = refl
is_in-clear (x ∷ xs) lo hi a c l h = ground (arith, is_in-clear xs lo hi a)

map_fits :
    (m : Machine) (huge : Bool) (len b : ℕ)
    → toy.mmap m huge len ≡ some b
    → (b ≡ huge_page_size)
      × (0 < len)
      × (b + len < 2 ^ 47)
      × (clear huge_page_size (huge_page_size + len) m.heap ≡ true)
map_fits m huge len b e = ground arith

block_at :
    (m : Machine) (elem size a : ℕ)
    → toy.calloc m elem size ≡ some a
    → (a ≡ 1 + (sum m.heap + edge m.regions)) × (elem * size < 2 ^ 63)
block_at m elem size a e = ground arith

pub toy-IsLawful : IsLawful toy
toy-IsLawful = record {
  block_pos = λ m elem size a e. omega (arith, block_at m elem size a e);
  block_new = λ m elem size a e. is_in-above m.heap a (omega (arith, block_at m elem size a e));
  block_fits = λ m elem size a e. (block_at m elem size a e).1;
  map_aligned = λ m huge len b e. omega (arith, map_fits m huge len b e);
  map_user = λ m huge len b e. (
    omega (arith, map_fits m huge len b e),
    (map_fits m huge len b e).1,
    (map_fits m huge len b e).2,
  );
  map_no_block = λ m huge len b a e l h.
      is_in-clear m.heap huge_page_size (huge_page_size + len) a (map_fits m huge len b e).3
        (omega (arith, map_fits m huge len b e)) (omega (arith, map_fits m huge len b e));
  block_unmapped = λ m elem size a x r rs e f l h eq.
      omega (arith, block_at m elem size a e, front m.regions r rs f);
}
  where
    front : (l : List Region) (r : Region) (rs : List Region) → l ≡ r ∷ rs → edge l ≡ r.base + r.len
    front l r rs f = rw f

poor-toy :
    (m : Machine) (elem size a : ℕ)
    → poor.calloc m elem size ≡ some a
    → toy.calloc m elem size ≡ some a
poor-toy m elem size a e = ground arith

pub poor-IsLawful : IsLawful poor
poor-IsLawful = record {
  block_pos = λ m elem size a e. toy-IsLawful.block_pos m elem size a (poor-toy m elem size a e);
  block_new = λ m elem size a e. toy-IsLawful.block_new m elem size a (poor-toy m elem size a e);
  block_fits = λ m elem size a e. toy-IsLawful.block_fits m elem size a (poor-toy m elem size a e);
  map_aligned = toy-IsLawful.map_aligned;
  map_user = toy-IsLawful.map_user;
  map_no_block = toy-IsLawful.map_no_block;
  block_unmapped = λ m elem size a x r rs e.
      toy-IsLawful.block_unmapped m elem size a x r rs (poor-toy m elem size a e);
}

pub with_bus-IsLawful : IsLawful with_bus
with_bus-IsLawful = record {
  block_pos = toy-IsLawful.block_pos;
  block_new = toy-IsLawful.block_new;
  block_fits = toy-IsLawful.block_fits;
  map_aligned = toy-IsLawful.map_aligned;
  map_user = toy-IsLawful.map_user;
  map_no_block = toy-IsLawful.map_no_block;
  block_unmapped = toy-IsLawful.block_unmapped;
}
