-- ===== src/Map/Pigeonhole.antt =====
-- Distinct numbers below a bound: how many there can be, and that a full set holds them all.
use rtcforge.Prelude.{
  ℕ, zero, suc, ◌≤◌, ◌<◌, true, false, List, [], ◌∷◌, ◌≡◌, refl, arith, number_key, ◌==◌,
  if◌then◌else◌, length, All, Bool-cases, inl, inr,
}
use rtcforge.Map.{contains, Distinct}

without : ℕ → List ℕ → List ℕ
without a [] = []
without a (x ∷ xs) = if x == a then without a xs else x ∷ without a xs

without_absent : (a : ℕ) (xs : List ℕ) → contains a xs ≡ false → without a xs ≡ xs
unfolding without contains
without_absent a [] h = refl
without_absent a (x ∷ xs) h = ground (arith, without_absent a xs)

contains-without :
    (a b : ℕ) (xs : List ℕ) → contains b xs ≡ false → contains b (without a xs) ≡ false
unfolding without contains
contains-without a b [] h = refl
contains-without a b (x ∷ xs) h = ground (arith, contains-without a b xs)

without-Distinct : (a : ℕ) (xs : List ℕ) → Distinct xs → Distinct (without a xs)
unfolding without
without-Distinct a [] d = tt
without-Distinct a (x ∷ xs) d = elim (Bool-cases (x == a)) [
  | inl e ↦ rw e (without-Distinct a xs d.1)
  | inr e ↦ rw e (contains-without a x xs d.0, without-Distinct a xs d.1)
]

length-without : (a : ℕ) (xs : List ℕ) → Distinct xs → length xs ≤ suc (length (without a xs))
unfolding without
length-without a [] d = omega arith
length-without a (x ∷ xs) d = elim (Bool-cases (x == a)) [
  | inl e ↦ rw (e, without_absent a xs (ground arith)) (omega arith)
  | inr e ↦ rw e (omega (arith, length-without a xs d.1))
]

without-below : (n : ℕ) (xs : List ℕ) → All (λ s. s < suc n) xs → All (λ s. s < n) (without n xs)
unfolding without
without-below n [] h = tt
without-below n (x ∷ xs) h = elim (Bool-cases (x == n)) [
  | inl e ↦ rw e (without-below n xs h.1)
  | inr e ↦ rw e (ground arith, without-below n xs h.1)
]

pub length_of_below : (n : ℕ) (xs : List ℕ) → Distinct xs → All (λ s. s < n) xs → length xs ≤ n
length_of_below zero [] d h = omega arith
length_of_below zero (x ∷ xs) d h = absurd (omega arith)
length_of_below (suc n) xs d h =
    let rest = length_of_below n (without n xs) (without-Distinct n xs d) (without-below n xs h) in
    omega (arith, length-without n xs d)

pub contains_of_full :
    (n s : ℕ) (xs : List ℕ)
    → Distinct xs
    → All (λ s. s < n) xs
    → n ≤ length xs
    → s < n
    → contains s xs ≡ true
contains_of_full n s xs d h full low = elim (Bool-cases (contains s xs)) [
  | inl e ↦ e
  | inr e ↦ absurd (omega (arith, length_of_below n (s ∷ xs) (e, d) (low, h)))
]
