-- ===== src/Core/HashRing.antt =====
-- packages/core/src/HashRing.ts: rendezvous hashing. A text is the list of its UTF-16 code units. A
-- 32-bit integer is its unsigned value. Floating-point numbers are an argument.
pub mod Cyrb53
pub mod Routing
use rtcforge.Map
use rtcforge.Map.{Map}
use rtcforge.Prelude.{
  ℕ, zero, ◌+◌, ◌*◌, ◌^◌, Bool, true, false, not, ◌||◌, List, [], ◌∷◌, ◌++◌, Option, none, some,
  map, ◌≡◌, if◌then◌else◌, ◌===◌, length, take, Key,
}
use Cyrb53.{cyrb53, units_key}

-- What the source uses of the language's floating-point numbers.
pub record Numbers : Type 1 where
  pub Number : Type 0
  pub of_natural : ℕ → Number
  pub divide : Number → Number → Number
  pub negate : Number → Number
  pub log : Number → Number
  pub min_value : Number
  pub below_one : Number
  pub negative_infinity : Number
  pub above : Number → Number → Bool
  pub is_finite : Number → Bool
  pub is_nan : Number → Bool

module _ (num : Numbers) where
  pub record HashRing : Type 0 where
    pub nodes : Map (List ℕ) num.Number

  -- A node that is to be added: its weight, if it has one.
  pub record RingNode : Type 0 where
    pub id : List ℕ
    pub weight : Option num.Number

  abbrev pub weight_or_one : Option num.Number → num.Number
  weight_or_one none = num.of_natural 1
  weight_or_one (some w) = w

  -- `none` is the error that is thrown.
  unfoldable pub add : RingNode → HashRing → Option HashRing
  add node ring =
      let weight = weight_or_one node.weight in
      if not (num.is_finite weight) || not (num.above weight (num.of_natural 0))
      then none
      else some (record { nodes = Map.set node.id weight ring.nodes })

  unfoldable pub remove : List ℕ → HashRing → HashRing × Bool
  remove id ring = (record { nodes = Map.delete id ring.nodes }, Map.has id ring.nodes)

  -- `a <= b` and `a >= b` of numbers, neither of which holds of a NaN.
  abbrev at_most : num.Number → num.Number → Bool
  at_most a b = if num.is_nan a || num.is_nan b then false else not (num.above a b)

  unfoldable pub score : List ℕ → List ℕ → num.Number → num.Number
  unfolding cyrb53
  score key id weight =
      let h = num.of_natural (cyrb53 (key ++ (b'|' ∷ id))) in
      let unit = num.divide h (num.of_natural (2 ^ 53)) in
      let unit' = if at_most unit (num.of_natural 0) then num.min_value else unit in
      let unit'' = if at_most (num.of_natural 1) unit' then num.below_one else unit' in
      num.divide weight (num.negate (num.log unit''))

  -- The loop of `get`, from the best node so far and its score.
  unfoldable pub best :
      List ℕ → Map (List ℕ) num.Number → Option (List ℕ) → num.Number → Option (List ℕ)
  unfolding score
  best key [] id top = id
  best key ((i, weight) ∷ nodes) id top =
      let s = score key i weight in
      let taken = best key nodes (some i) s in
      let left = best key nodes id top in if num.above s top then taken else left

  unfoldable pub get : List ℕ → HashRing → Option (List ℕ)
  unfolding best
  get key ring = best key ring.nodes none num.negative_infinity

  -- Insertion of an earlier entry: it stays before the entries that do not score above it.
  unfoldable pub insert_scored :
      List ℕ × num.Number → List (List ℕ × num.Number) → List (List ℕ × num.Number)
  insert_scored x [] = x ∷ []
  insert_scored x (y ∷ ys) = if num.above y.1 x.1 then y ∷ insert_scored x ys else x ∷ y ∷ ys

  -- The entries with their scores, by descending score; ties keep their order.
  unfoldable pub scored : List ℕ → Map (List ℕ) num.Number → List (List ℕ × num.Number)
  unfolding insert_scored score
  scored key [] = []
  scored key ((i, weight) ∷ nodes) = insert_scored (i, score key i weight) (scored key nodes)

  unfoldable pub get_n : List ℕ → ℕ → HashRing → List (List ℕ)
  unfolding scored
  get_n key n ring = map (λ s. s.0) (take n (scored key ring.nodes))
