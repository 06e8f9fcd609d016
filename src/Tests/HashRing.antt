-- ===== src/Tests/HashRing.antt =====
-- A ring of two nodes, with whole numbers in the place of floating-point numbers.
use rtcforge.Prelude.{ℕ, true, false, List, [], ◌∷◌, some, ◌≡◌, ◌≢◌, refl, arith, ltb, ne_of_same}
use rtcforge.Core.HashRing.Cyrb53.{cyrb53, units_key, same_units}
use rtcforge.Core.HashRing.{Numbers, HashRing, get, remove}
use rtcforge.Core.HashRing.Routing.{IsOrder, IsBest, remove_moves_own_keys, get-IsBest}

-- Whole numbers, of which a quotient is the dividend and nothing is a NaN.
abbrev whole : Numbers
whole = record {
  Number = ℕ;
  of_natural = λ n. n;
  divide = λ a b. a;
  negate = λ a. a;
  log = λ a. a;
  min_value = 1;
  below_one = 1;
  negative_infinity = 0;
  above = λ a b. ltb b a;
  is_finite = λ a. true;
  is_nan = λ a. false;
}

whole-IsOrder : IsOrder whole
whole-IsOrder = record {
  trans = λ a b c h k. ground arith;
  mixed = λ a b c h k l. ground arith;
  irreflexive = λ a. ground arith;
  infinity_is_number = refl;
}

abbrev ring : HashRing whole
ring = record { nodes = (b'a' ∷ [], 2) ∷ (b'b' ∷ [], 5) ∷ [] }

ring-owner : get whole (b'k' ∷ []) ring ≡ some (b'b' ∷ [])
unfolding get
ring-owner = refl

abbrev name_a : List ℕ
name_a = b'a' ∷ []

abbrev name_b : List ℕ
name_b = b'b' ∷ []

a_not_b : name_a ≢ name_b
unfolding same_units
a_not_b = ne_of_same name_a name_b refl

remove_moves_own_keys_example :
    get whole (b'k' ∷ []) (remove whole (b'a' ∷ []) ring).0 ≡ some (b'b' ∷ [])
remove_moves_own_keys_example =
    remove_moves_own_keys whole whole-IsOrder (b'k' ∷ []) (b'a' ∷ []) (b'b' ∷ []) ring
      (refl, (refl, tt)) ring-owner a_not_b

get-IsBest_example :
    (weight : ℕ) × IsBest whole whole-IsOrder (b'k' ∷ []) ring.nodes (b'b' ∷ []) weight
get-IsBest_example = get-IsBest whole whole-IsOrder (b'k' ∷ []) (b'b' ∷ []) ring ring-owner

cyrb53-ab : cyrb53 (b'a' ∷ b'b' ∷ []) ≡ 3382748631033682
unfolding cyrb53
cyrb53-ab = refl
