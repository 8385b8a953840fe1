-- ===== src/Dma/Machine.antt =====
-- What pool creation asks of the system, and the memory that it changes: heap blocks, mappings of
-- huge pages, the words stored in them, and the pages mapped on the bus.
pub mod Lawful
pub mod Laws
use target_syslibs.Base.{
  ℕ, ◌+◌, ◌*◌, ◌^◌, Bool, true, false, Option, none, some, List, [], ◌∷◌, if◌then◌else◌, ◌==◌, ◌&&◌,
}
use target_syslibs.Base.Outcome.{Outcome, done, aborted, faulted}
use target_syslibs.Dma.Address.{PageMapFile}

pub record Region : Type 0 where
  pub base : ℕ
  pub len : ℕ

-- A page on the bus: the device and the subdevice that it is mapped for, and its bus address.
pub record OnBus : Type 0 where
  pub dev_id : ℕ
  pub subdev_id : ℕ
  pub dma_addr : ℕ

-- `heap` lists the addresses of the blocks that `bf_sys_calloc` gave and `bf_sys_free` did not take.
pub record Machine : Type 0 where
  pub heap : List ℕ
  pub regions : List Region
  pub word : ℕ → ℕ
  pub bus : List OnBus

-- The types of the functions that `bf_sys_dma_map_fn_register` stores, on a device, a subdevice and an
-- address: the bus address or an error, and whether there is an error.
abbrev pub MapFn : Type 0
MapFn = ℕ → ℕ → ℕ → Option ℕ

abbrev pub UnmapFn : Type 0
UnmapFn = ℕ → ℕ → ℕ → Bool

-- The answers of the system. A call of `calloc` or `mmap` may depend on all that is allocated;
-- `true` asks `mmap` for pages of 2 MB, and `none` is its failure. `map_fn` and `unmap_fn` are the
-- static variables for the bus, `none` where they are NULL.
pub record System : Type 0 where
  pub calloc : Machine → ℕ → ℕ → Option ℕ
  pub mmap : Machine → Bool → ℕ → Option ℕ
  pub pagemap : PageMapFile
  pub map_fn : Option MapFn
  pub unmap_fn : Option UnmapFn
  pub pool_bytes : ℕ

abbrev pub bf_sys_dma_map_fn_register : Option MapFn → Option UnmapFn → System → System
bf_sys_dma_map_fn_register fn1 fn2 s = record s { map_fn = fn1; unmap_fn = fn2 }

abbrev pub M : Type 0 → Type 0
M A = Machine → Outcome (A × Machine)

abbrev pub pure : {A : Type 0} → A → M A
pure a m = done (a, m)

infixl 5 ◌>>=◌ ◌>>◌
abbrev pub ◌>>=◌ : {A B : Type 0} → M A → (A → M B) → M B
◌>>=◌ c f m = elim (c m) [
  | done (a, m') ↦ f a m'
  | aborted ↦ aborted
  | faulted ↦ faulted
  | Outcome.blocked ↦ Outcome.blocked
]

abbrev pub ◌>>◌ : {B : Type 0} → M (Unit {0}) → M B → M B
c >> k = c >>= λ _. k

abbrev pub check : Bool → M (Unit {0})
check true m = done (tt, m)
check false m = aborted

abbrev pub is_in : ℕ → List ℕ → Bool
is_in a [] = false
is_in a (x ∷ xs) = if x == a then true else is_in a xs

abbrev pub remove : ℕ → List ℕ → List ℕ
remove a [] = []
remove a (x ∷ xs) = if x == a then xs else x ∷ remove a xs

abbrev pub on_bus : (dev_id subdev_id dma_addr : ℕ) → OnBus
on_bus dev_id subdev_id dma_addr = record {
  dev_id = dev_id;
  subdev_id = subdev_id;
  dma_addr = dma_addr;
}

abbrev pub take_off : (dev_id subdev_id dma_addr : ℕ) → List OnBus → List OnBus
take_off dev_id subdev_id dma_addr [] = []
take_off dev_id subdev_id dma_addr (x ∷ xs) =
    if (x.dev_id == dev_id) && (x.subdev_id == subdev_id) && (x.dma_addr == dma_addr)
    then xs
    else x ∷ take_off dev_id subdev_id dma_addr xs

abbrev remove_region : ℕ → ℕ → List Region → List Region
remove_region b l [] = []
remove_region b l (r ∷ rs) = if r.base == b && r.len == l then rs else r ∷ remove_region b l rs

-- `bf_sys_calloc` of bf_sys_mem.c
unfoldable pub bf_sys_calloc : System → ℕ → ℕ → M (Option ℕ)
bf_sys_calloc s elem size m = elim (s.calloc m elem size) [
  | none ↦ done (none, m)
  | some a ↦ done (some a, record m { heap = a ∷ m.heap })
]

-- `bf_sys_free` of bf_sys_mem.c. A pointer that is not NULL and was not allocated is undefined.
unfoldable pub bf_sys_free : ℕ → M (Unit {0})
bf_sys_free a m =
    if a == 0
    then done (tt, m)
    else if is_in a m.heap
    then done (tt, record m { heap = remove a m.heap })
    else faulted

unfoldable pub mmap : System → Bool → ℕ → M (Option ℕ)
mmap s huge len m = elim (s.mmap m huge len) [
  | none ↦ done (none, m)
  | some b ↦ done (some b, record m { regions = record { base = b; len = len } ∷ m.regions })
]

unfoldable pub munmap : ℕ → ℕ → M (Unit {0})
munmap b len m = done (tt, record m { regions = remove_region b len m.regions })

unfoldable pub load : ℕ → M ℕ
load a m = done (m.word a, m)

unfoldable pub store : ℕ → ℕ → M (Unit {0})
store a v m = done (tt, record m { word = λ b. if a == b then v else m.word b })
