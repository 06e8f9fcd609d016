-- ===== src/Map.antt =====
-- The `Map` of the source's language: entries in insertion order. `set` on a key that is present
-- keeps its place, and on a new key appends.
pub mod Laws
pub mod Pigeonhole
pub mod Filters
use rtcforge.Prelude.{
  Bool, false, ◌||◌, List, [], ◌∷◌, ◌++◌, Option, none, some, ◌≡◌, refl, arith, Key, ◌===◌,
  if◌then◌else◌, eq_of_same, same_of_eq,
}

abbrev pub Map {ℓ κ} : Type ℓ → Type κ → Type (ℓ ⊔ κ)
Map K V = List (K × V)

module _ {ℓ} {K : Type ℓ} ⦃k : Key K⦄ where
  unfoldable pub contains : K → List K → Bool
  contains a [] = false
  contains a (x ∷ xs) = x === a || contains a xs

  -- No key twice.
  abbrev pub Distinct : List K → Type 0
  Distinct [] = Unit
  Distinct (x ∷ xs) = (contains x xs ≡ false) × Distinct xs

  pub contains-append :
      (a : K) (xs ys : List K) → contains a (xs ++ ys) ≡ (contains a xs || contains a ys)
  unfolding contains
  contains-append a [] ys = refl
  contains-append a (x ∷ xs) ys = ground (arith, contains-append a xs ys)

  pub Distinct-append :
      (a : K) (xs : List K) → contains a xs ≡ false → Distinct xs → Distinct (xs ++ (a ∷ []))
  unfolding contains
  Distinct-append a [] h d = (refl, tt)
  Distinct-append a (x ∷ xs) h d =
      ground
        (arith, contains-append x xs (a ∷ []), eq_of_same a x, same_of_eq x a, Distinct-append a xs)

module _ {ℓ κ} {K : Type ℓ} {V : Type κ} where
  abbrev pub keys : Map K V → List K
  keys [] = []
  keys ((b, _) ∷ m) = b ∷ keys m

  abbrev pub values : Map K V → List V
  values [] = []
  values ((_, v) ∷ m) = v ∷ values m

module _ {ℓ κ} {K : Type ℓ} {V : Type κ} ⦃k : Key K⦄ where
  unfoldable pub get : K → Map K V → Option V
  get a [] = none
  get a ((b, v) ∷ m) = if b === a then some v else get a m

  unfoldable pub has : K → Map K V → Bool
  has a [] = false
  has a ((b, v) ∷ m) = b === a || has a m

  unfoldable pub set : K → V → Map K V → Map K V
  set a v [] = (a, v) ∷ []
  set a v ((b, w) ∷ m) = if b === a then (b, v) ∷ m else (b, w) ∷ set a v m

  unfoldable pub delete : K → Map K V → Map K V
  delete a [] = []
  delete a ((b, w) ∷ m) = if b === a then m else (b, w) ∷ delete a m
