-- ===== src/Sfu/PlacementStrategy/Least.antt =====
-- The node with the least load.
use rtcforge.Prelude.{
  ℕ, ◌≤◌, Bool, true, false, List, [], ◌∷◌, Option, none, some, String, ltb, ◌≡◌, refl, sym, ap,
  subst, ◌∙◌, arith, if◌then◌else◌, if_lem, filter_by, All, OnSome, this, other, text_key,
}
use rtcforge.Sfu.SfuNode.{SfuNode, is_empty}
use rtcforge.Sfu.PlacementStrategy.{is_in, named, pool_in, regional_pool, least, least_of}

abbrev pub NoLess : ℕ × SfuNode → ℕ × SfuNode → Type 0
NoLess n m = n.1.load ≤ m.1.load

-- The node is one of those given, and none of them has less load.
pub record IsLeast (n : ℕ × SfuNode) (ns : List (ℕ × SfuNode)) : Type 0 where
  pub one_of : OnSome (λ m. m ≡ n) ns
  pub lowest : All (NoLess n) ns

least-IsLeast : (min : ℕ × SfuNode) (ns : List (ℕ × SfuNode)) → IsLeast (least min ns) (min ∷ ns)
unfolding least
least-IsLeast min [] = record { one_of = OnSome.this refl; lowest = (omega arith, tt) }
least-IsLeast min (n ∷ ns) =
    if_lem (λ m. IsLeast (least m ns) (min ∷ n ∷ ns)) (ltb n.1.load min.1.load) n min
      (λ lower.
        let v = least-IsLeast n ns in
        record {
          one_of = OnSome.other v.one_of;
          lowest = (ground (arith, lower, v.lowest.0), v.lowest);
        })
      (λ higher.
        let v = least-IsLeast min ns in
        record {
          one_of = skip v.one_of;
          lowest = (v.lowest.0, (ground (arith, higher, v.lowest.0), v.lowest.1));
        })
  where
    skip :
        {P : ℕ × SfuNode → Type 0} {a b : ℕ × SfuNode} {ms : List (ℕ × SfuNode)}
        → OnSome P (a ∷ ms)
        → OnSome P (a ∷ b ∷ ms)
    skip (this p) = OnSome.this p
    skip (other h) = OnSome.other (OnSome.other h)

pub least_of-IsLeast :
    (ns : List (ℕ × SfuNode)) (n : ℕ × SfuNode) → least_of ns ≡ some n → IsLeast n ns
least_of-IsLeast [] n e = absurd (ground (arith, e))
least_of-IsLeast (m ∷ ms) n e =
    subst (λ k. IsLeast k (m ∷ ms)) (ap (or_first m) e) (least-IsLeast m ms)
  where
    or_first : ℕ × SfuNode → Option (ℕ × SfuNode) → ℕ × SfuNode
    or_first m none = m
    or_first m (some n) = n

kept_or_left :
    {A : Type 0} (a x : A) (test : A → Bool) (xs ys : List A) (b : Bool)
    → test x ≡ b
    → (OnSome (λ y. y ≡ a) ys → OnSome (λ y. y ≡ a) xs × (test a ≡ true))
    → OnSome (λ y. y ≡ a) (if b then x ∷ ys else ys)
    → OnSome (λ y. y ≡ a) (x ∷ xs) × (test a ≡ true)
kept_or_left a x test xs ys true e below (this p) = (OnSome.this p, sym (ap test p) ∙ e)
kept_or_left a x test xs ys true e below (other h) = (OnSome.other (below h).0, (below h).1)
kept_or_left a x test xs ys false e below h = (OnSome.other (below h).0, (below h).1)

-- What a filter lets through stood in the list, and passes the test.
pub on_filter :
    {A : Type 0} (a : A) (test : A → Bool) (xs : List A)
    → OnSome (λ x. x ≡ a) (filter_by test xs)
    → OnSome (λ x. x ≡ a) xs × (test a ≡ true)
on_filter a test [] h = elim h [ ]
on_filter a test (x ∷ xs) h =
    kept_or_left a x test xs (filter_by test xs) (test x) refl (on_filter a test xs) h

on_pool_in :
    (n : ℕ × SfuNode) (candidates : List (ℕ × SfuNode)) (region : Option String)
    → OnSome (λ m. m ≡ n) (pool_in candidates region)
    → OnSome (λ m. m ≡ n) candidates
on_pool_in n candidates none h = h
on_pool_in n candidates (some region) h =
    if_lem (λ pool. OnSome (λ m. m ≡ n) pool → OnSome (λ m. m ≡ n) candidates)
      (is_empty (filter_by (is_in region) candidates)) candidates
      (filter_by (is_in region) candidates) (λ none'. λ k. k)
      (λ some'. λ k. (on_filter n (is_in region) candidates k).0) h

-- The pool of a region has nodes of the candidates only.
pub on_regional_pool :
    (n : ℕ × SfuNode) (candidates : List (ℕ × SfuNode)) (region : Option String)
    → OnSome (λ m. m ≡ n) (regional_pool candidates region)
    → OnSome (λ m. m ≡ n) candidates
unfolding regional_pool
on_regional_pool n candidates region h = on_pool_in n candidates (named region) h

-- The pool is not empty where there is a candidate.
pub regional_pool-none :
    (candidates : List (ℕ × SfuNode)) (region : Option String)
    → least_of (regional_pool candidates region) ≡ none
    → is_empty candidates ≡ true
unfolding regional_pool
regional_pool-none candidates region e = pool_in-none (named region) e
  where
    least_of-none : (ns : List (ℕ × SfuNode)) → least_of ns ≡ none → is_empty ns ≡ true
    least_of-none [] e = refl
    least_of-none (n ∷ ns) e = absurd (ground (arith, e))

    pool_in-none :
        (region : Option String)
        → least_of (pool_in candidates region) ≡ none
        → is_empty candidates ≡ true
    pool_in-none none e = least_of-none candidates e
    pool_in-none (some region) e =
        if_lem (λ pool. least_of pool ≡ none → is_empty candidates ≡ true)
          (is_empty (filter_by (is_in region) candidates)) candidates
          (filter_by (is_in region) candidates) (λ none'. λ k. least_of-none candidates k)
          (λ some'. λ k.
            absurd (ground (arith, least_of-none (filter_by (is_in region) candidates) k, some')))
          e
