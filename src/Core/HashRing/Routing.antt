-- ===== src/Core/HashRing/Routing.antt =====
-- What the ring promises of a key's owner. The laws of the comparison are those of floating-point
-- numbers, whose scores are no NaN.
use rtcforge.Map
use rtcforge.Map.{Map}
use rtcforge.Prelude.{
  ℕ, true, false, List, [], ◌∷◌, Option, none, some, ◌≡◌, ◌≢◌, sym, ap, ◌∙◌, ◌⊎◌, subst, get_elem?,
  suc, inl, inr, arith, ◌===◌, Bool-cases, eq_of_same,
}
use rtcforge.Core.HashRing.Cyrb53.{units_key}
use rtcforge.Core.HashRing.{Numbers, HashRing, score, best, get, remove}

-- `>` on numbers: it is transitive, and what is above a number is above all that the number is not
-- below, unless that is a NaN.
pub record IsOrder (num : Numbers) : Type 0 where
  pub trans :
      (a b c : num.Number) → num.above a b ≡ true → num.above b c ≡ true → num.above a c ≡ true
  pub mixed :
      (a b c : num.Number)
      → num.is_nan a ≡ false
      → num.above a b ≡ false
      → num.above c b ≡ true
      → num.above c a ≡ true
  pub irreflexive : (a : num.Number) → num.above a a ≡ false
  pub infinity_is_number : num.is_nan num.negative_infinity ≡ false

none≢some : {a : List ℕ} → none ≢ some a
none≢some e = ground arith

false≢true : false ≢ true
false≢true e = ground arith

module _ (num : Numbers) (order : IsOrder num) (key : List ℕ) where
  -- No score of the key is a NaN.
  abbrev pub AreScored : Map (List ℕ) num.Number → Type 0
  AreScored [] = Unit
  AreScored ((i, weight) ∷ nodes) = (num.is_nan (score num key i weight) ≡ false) × AreScored nodes

  -- No node scores above `top`.
  abbrev pub AllBelow : num.Number → Map (List ℕ) num.Number → Type 0
  AllBelow top [] = Unit
  AllBelow top ((i, weight) ∷ nodes) =
      (num.above (score num key i weight) top ≡ false) × AllBelow top nodes

  best_takes :
      (i : List ℕ) (weight : num.Number) (nodes : Map (List ℕ) num.Number) (o : Option (List ℕ))
      (s : num.Number)
      → num.above (score num key i weight) s ≡ true
      → best num key ((i, weight) ∷ nodes) o s
        ≡ best num key nodes (some i) (score num key i weight)
  unfolding best
  best_takes i weight nodes o s up = rw up

  best_leaves :
      (i : List ℕ) (weight : num.Number) (nodes : Map (List ℕ) num.Number) (o : Option (List ℕ))
      (s : num.Number)
      → num.above (score num key i weight) s ≡ false
      → best num key ((i, weight) ∷ nodes) o s ≡ best num key nodes o s
  unfolding best
  best_leaves i weight nodes o s down = rw down

  some_inj : {a b : List ℕ} → some a ≡ some b → a ≡ b
  some_inj e = ground arith

  not_above : (a b : num.Number) → num.above b a ≡ true → num.above a b ≡ false
  not_above a b up = elim (Bool-cases (num.above a b)) [
    | inl down ↦ absurd (false≢true (sym (order.irreflexive a) ∙ order.trans a b a down up))
    | inr e ↦ e
  ]

  best_from_lower :
      (nodes : Map (List ℕ) num.Number) (o p : Option (List ℕ)) (s t : num.Number) (winner : List ℕ)
      → AreScored nodes
      → num.is_nan s ≡ false
      → num.above s t ≡ false
      → p ≢ some winner
      → best num key nodes p t ≡ some winner
      → best num key nodes o s ≡ some winner
  unfolding best
  best_from_lower [] o p s t winner scored number low other won = absurd (other won)
  best_from_lower ((i, weight) ∷ nodes) o p s t winner (number_i, scored) number low other won =
      let x = score num key i weight in
      elim (Bool-cases (num.above x t)) [
        | inl up ↦
            best_takes i weight nodes o s (order.mixed s t x number low up)
            ∙ sym (best_takes i weight nodes p t up)
            ∙ won
        | inr down ↦
            let won' = sym (best_leaves i weight nodes p t down) ∙ won in
            elim (Bool-cases (num.above x s)) [
              | inl up ↦
                  best_takes i weight nodes o s up
                  ∙ best_from_lower nodes (some i) p x t winner scored number_i down other won'
              | inr level ↦
                  best_leaves i weight nodes o s level
                  ∙ best_from_lower nodes o p s t winner scored number low other won'
            ]
      ]

  best-delete :
      (gone : List ℕ) (nodes : Map (List ℕ) num.Number) (o : Option (List ℕ)) (s : num.Number)
      (winner : List ℕ)
      → AreScored nodes
      → num.is_nan s ≡ false
      → gone ≢ winner
      → best num key nodes o s ≡ some winner
      → best num key (Map.delete gone nodes) o s ≡ some winner
  unfolding Map.delete
  best-delete gone [] o s winner scored number other won = won
  best-delete gone ((i, weight) ∷ nodes) o s winner (number_i, scored) number other won =
      let x = score num key i weight in
      elim (Bool-cases (i === gone)) [
        | inl same ↦ elim (Bool-cases (num.above x s)) [
          | inl up ↦ rw same (
              best_from_lower nodes o (some i) s x winner scored number (not_above s x up)
                (λ e. other (sym (eq_of_same i gone same) ∙ some_inj e))
                (sym (best_takes i weight nodes o s up) ∙ won))
          | inr down ↦ rw same (sym (best_leaves i weight nodes o s down) ∙ won)
        ]
        | inr differs ↦ elim (Bool-cases (num.above x s)) [
          | inl up ↦ rw differs (
              best_takes i weight (Map.delete gone nodes) o s up
              ∙ best-delete gone nodes (some i) x winner scored number_i other
                  (sym (best_takes i weight nodes o s up) ∙ won))
          | inr down ↦ rw differs (
              best_leaves i weight (Map.delete gone nodes) o s down
              ∙ best-delete gone nodes o s winner scored number other
                  (sym (best_leaves i weight nodes o s down) ∙ won))
        ]
      ]

  -- Removing a node moves only the keys that it owned: every other key keeps its owner.
  pub remove_moves_own_keys :
      (gone owner : List ℕ) (ring : HashRing num)
      → AreScored ring.nodes
      → get num key ring ≡ some owner
      → gone ≢ owner
      → get num key (remove num gone ring).0 ≡ some owner
  unfolding get remove
  remove_moves_own_keys gone owner ring scored owned other =
      best-delete gone ring.nodes none num.negative_infinity owner scored order.infinity_is_number
        other owned

  -- The node `owner` stands in `nodes` with a score that no node's is above.
  abbrev pub IsBest : Map (List ℕ) num.Number → List ℕ → num.Number → Type 0
  IsBest nodes owner weight =
      ((place : ℕ) × (get_elem? nodes place ≡ some (owner, weight)))
      × AllBelow (score num key owner weight) nodes

  not_above_higher :
      (x y s : num.Number) → num.above x s ≡ false → num.above y s ≡ true → num.above x y ≡ false
  not_above_higher x y s low high = elim (Bool-cases (num.above x y)) [
    | inl up ↦ absurd (false≢true (sym low ∙ order.trans x y s up high))
    | inr e ↦ e
  ]

  best-IsBest :
      (nodes : Map (List ℕ) num.Number) (o : Option (List ℕ)) (s : num.Number) (owner : List ℕ)
      → best num key nodes o s ≡ some owner
      → ((o ≡ some owner) × AllBelow s nodes)
        ⊎ ((weight : num.Number) × IsBest nodes owner weight
            × (num.above (score num key owner weight) s ≡ true))
  unfolding best
  best-IsBest [] o s owner won = inl (won, tt)
  best-IsBest ((i, weight) ∷ nodes) o s owner won =
      let x = score num key i weight in
      elim (Bool-cases (num.above x s)) [
        | inl up ↦
            elim (best-IsBest nodes (some i) x owner
              (sym (best_takes i weight nodes o s up) ∙ won)) [
                | inl (e, below) ↦ inr (
                  weight,
                  (
                    (0, ap (λ j. some (j, weight)) (some_inj e)),
                    subst (λ j. AllBelow (score num key j weight) ((i, weight) ∷ nodes))
                        (some_inj e) (order.irreflexive x, below),
                  ),
                  subst (λ j. num.above (score num key j weight) s ≡ true) (some_inj e) up,
                )
                | inr (w, ((place, found), below), high) ↦ inr (
                  w,
                  ((suc place, found), (not_above x (score num key owner w) high, below)),
                  order.trans (score num key owner w) x s high up,
                )
              ]
        | inr down ↦
            elim (best-IsBest nodes o s owner (sym (best_leaves i weight nodes o s down) ∙ won)) [
              | inl (e, below) ↦ inl (e, (down, below))
              | inr (w, ((place, found), below), high) ↦ inr (
                w,
                (
                  (suc place, found),
                  (not_above_higher x (score num key owner w) s down high, below),
                ),
                high,
              )
            ]
      ]

  -- The owner of a key is a node of the ring, and no node of the ring scores above it.
  pub get-IsBest :
      (owner : List ℕ) (ring : HashRing num)
      → get num key ring ≡ some owner
      → (weight : num.Number) × IsBest ring.nodes owner weight
  unfolding get
  get-IsBest owner ring owned =
      elim (best-IsBest ring.nodes none num.negative_infinity owner owned) [
        | inl (e, below) ↦ absurd (none≢some e)
        | inr (w, best', high) ↦ (w, best')
      ]
