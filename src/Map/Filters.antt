-- ===== src/Map/Filters.antt =====
-- Lists of keys that are filtered, and counted.
use rtcforge.Map.{contains, Distinct}
use rtcforge.Prelude.{
  ℕ, ◌+◌, Bool, false, ◌&&◌, List, [], ◌∷◌, ◌++◌, ◌≡◌, refl, sym, ap, arith, Key, ◌===◌,
  if◌then◌else◌, if_lem, Bool-cases, inl, inr, filter_by, eq_of_same, same_of_eq,
}

module _ {ℓ} {K : Type ℓ} ⦃k : Key K⦄ where
  pub contains-filter_by :
      (a : K) (test : K → Bool) (xs : List K)
      → contains a (filter_by test xs) ≡ (contains a xs && test a)
  unfolding contains
  contains-filter_by a test [] = refl
  contains-filter_by a test (x ∷ xs) = elim (Bool-cases (x === a)) [
    | inl same ↦
        let e = ap test (eq_of_same x a same) in
        ground (arith, same, e, contains-filter_by a test xs)
    | inr other ↦ ground (arith, other, contains-filter_by a test xs)
  ]

  pub Distinct-filter_by :
      (test : K → Bool) (xs : List K) → Distinct xs → Distinct (filter_by test xs)
  Distinct-filter_by test [] d = tt
  Distinct-filter_by test (x ∷ xs) d =
      if_lem Distinct (test x) (x ∷ filter_by test xs) (filter_by test xs)
        (λ kept.
          (ground (arith, contains-filter_by x test xs, d.0), Distinct-filter_by test xs d.1))
        (λ left. Distinct-filter_by test xs d.1)

  abbrev pub count : K → List K → ℕ
  count a [] = 0
  count a (x ∷ xs) = (if x === a then 1 else 0) + count a xs

  pub count-append :
      (a x : K) (xs : List K) → count a (xs ++ (x ∷ [])) ≡ count a xs + (if x === a then 1 else 0)
  count-append a x [] = omega arith
  count-append a x (y ∷ xs) = omega (arith, count-append a x xs)

  pub same_symm : (a b : K) → (a === b) ≡ false → (b === a) ≡ false
  same_symm a b h = elim (Bool-cases (b === a)) [
    | inl same ↦ absurd (ground (arith, h, same_of_eq a b (sym (eq_of_same b a same))))
    | inr other ↦ other
  ]
