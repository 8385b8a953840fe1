-- ===== src/Dma/Create/Bus.antt =====
-- What mapping the pages of a pool leaves on the bus, and that unmapping them takes it away.
use target_syslibs.Base.{
  Bool, true, false, ℕ, ◌+◌, ◌<◌, ◌≡◌, refl, ap, ◌∙◌, Option, none, some, List, [], ◌∷◌, ◌++◌, map,
  count, count-append, if◌then◌else◌, ◌==◌, eq→==, arith,
}
use target_syslibs.Dma.Pool.{HugePage}
use target_syslibs.Dma.Machine.{MapFn, OnBus, remove, on_bus, take_off}

abbrev pub dma_addrs : List HugePage → List ℕ
dma_addrs = map (λ h. h.base_dma_addr)

-- The pages that are mapped, the last one first, if a function for it is registered.
abbrev pub after_mapping : Option MapFn → ℕ → ℕ → List ℕ → List OnBus → List OnBus
after_mapping none dev_id subdev_id ds bus = bus
after_mapping (some f) dev_id subdev_id [] bus = bus
after_mapping (some f) dev_id subdev_id (d ∷ ds) bus =
    after_mapping (some f) dev_id subdev_id ds (on_bus dev_id subdev_id d ∷ bus)

pub after_mapping-cons :
    (o : Option MapFn) (dev_id subdev_id d : ℕ) (ds : List ℕ) (bus : List OnBus)
    → after_mapping o dev_id subdev_id (d ∷ ds) bus
      ≡ after_mapping o dev_id subdev_id ds (after_mapping o dev_id subdev_id (d ∷ []) bus)
after_mapping-cons none dev_id subdev_id d ds bus = refl
after_mapping-cons (some f) dev_id subdev_id d ds bus = refl

count-remove :
    (d x : ℕ) (xs : List ℕ)
    → 0 < count d xs
    → count x (remove d xs) + (if d == x then 1 else 0) ≡ count x xs
count-remove d x [] h = absurd (omega arith)
count-remove d x (y ∷ xs) h = ground (arith, count-remove d x xs)

none_counted : (xs : List ℕ) → ((x : ℕ) → count x xs ≡ 0) → xs ≡ []
none_counted [] h = refl
none_counted (x ∷ xs) h = absurd (omega (arith, rw (eq→== x x refl) at (h x)))

module _ (dev_id subdev_id : ℕ) where
  abbrev pub remove_all : List ℕ → List OnBus → List OnBus
  remove_all [] bus = bus
  remove_all (d ∷ ds) bus = remove_all ds (take_off dev_id subdev_id d bus)

  -- Pages of this device.
  abbrev own : List ℕ → List OnBus
  own = map (on_bus dev_id subdev_id)

  -- The pages stand before what was there.
  record Prefix (f : MapFn) (ds : List ℕ) (bus : List OnBus) : Type 0 where
    front : List ℕ
    split : after_mapping (some f) dev_id subdev_id ds bus ≡ own front ++ bus
    same : (x : ℕ) → count x front ≡ count x ds

  own-append :
      (front : List ℕ) (d : ℕ) (bus : List OnBus)
      → own front ++ (on_bus dev_id subdev_id d ∷ bus) ≡ own (front ++ d ∷ []) ++ bus
  own-append [] d bus = refl
  own-append (x ∷ front) d bus = ap (λ l. on_bus dev_id subdev_id x ∷ l) (own-append front d bus)

  after_mapping-Prefix : (f : MapFn) (ds : List ℕ) (bus : List OnBus) → Prefix f ds bus
  after_mapping-Prefix f [] bus = record { front = []; split = refl; same = λ x. refl }
  after_mapping-Prefix f (d ∷ ds) bus =
      let rest = after_mapping-Prefix f ds (on_bus dev_id subdev_id d ∷ bus) in
      record {
        front = rest.front ++ d ∷ [];
        split = rest.split ∙ own-append rest.front d bus;
        same = λ x. omega (arith, count-append x rest.front (d ∷ []), rest.same x);
      }

  -- A test that finds a page or goes on to the others.
  own-found :
      (found : Bool) (x : ℕ) (front rest : List ℕ) (bus left : List OnBus)
      → (found ≡ false → left ≡ own rest ++ bus)
      → (if found then own front ++ bus else on_bus dev_id subdev_id x ∷ left)
        ≡ own (if found then front else x ∷ rest) ++ bus
  own-found true x front rest bus left later = refl
  own-found false x front rest bus left later = ap (λ l. on_bus dev_id subdev_id x ∷ l) (later refl)

  take_off-own :
      (d : ℕ) (front : List ℕ) (bus : List OnBus)
      → 0 < count d front
      → take_off dev_id subdev_id d (own front ++ bus) ≡ own (remove d front) ++ bus
  take_off-own d [] bus h = absurd (omega arith)
  take_off-own d (x ∷ front) bus h =
      rw (eq→== dev_id dev_id refl, eq→== subdev_id subdev_id refl)
        (own-found (x == d) x front (remove d front) bus
          (take_off dev_id subdev_id d (own front ++ bus))
          (λ other. take_off-own d front bus (ground (arith, h))))

  remove_all-front :
      (ds front : List ℕ) (bus : List OnBus)
      → ((x : ℕ) → count x front ≡ count x ds)
      → remove_all ds (own front ++ bus) ≡ bus
  remove_all-front [] front bus same = ap (λ l. own l ++ bus) (none_counted front same)
  remove_all-front (d ∷ ds) front bus same =
      ap (remove_all ds) (take_off-own d front bus here)
      ∙ remove_all-front ds (remove d front) bus
          (λ x. omega (arith, same x, count-remove d x front here))
    where
      here : 0 < count d front
      here = omega (arith, rw (eq→== d d refl) at (same d))

  -- Unmapping in order what was mapped leaves the bus as it was.
  pub remove_all-after_mapping :
      (f : MapFn) (ds : List ℕ) (bus : List OnBus)
      → remove_all ds (after_mapping (some f) dev_id subdev_id ds bus) ≡ bus
  remove_all-after_mapping f ds bus =
      let p = after_mapping-Prefix f ds bus in
      ap (remove_all ds) p.split ∙ remove_all-front ds p.front bus p.same
