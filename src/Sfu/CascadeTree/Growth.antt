-- ===== src/Sfu/CascadeTree/Growth.antt =====
-- The growth of a tree ends, and uses the pool in order.
use mathlib.Core.List.{append_assoc}
use rtcforge.Prelude.{
  ℕ, zero, suc, ◌+◌, ◌-◌, ◌*◌, ◌≤◌, false, not, ◌&&◌, List, [], ◌∷◌, ◌++◌, String, ◌≡◌, refl, sym,
  ap, subst, ◌∙◌, ◌⊎◌, inl, inr, arith, ltb, ◌==◌, min, length, length-append, text_key, Bool-cases,
}
use rtcforge.Sfu.CascadeTree.Plan.{
  CascadePlanNode, CascadeLink, Growing, Ref, PlanParams, update_at, place, adopt, spread, relabel,
  grow, is_empty, leaves_of, assign, cap_for, start, grown, finish,
}

unfoldable pub targets : List CascadeLink → List String
targets [] = []
targets (l ∷ links) = l.target ∷ targets links

-- The ids that were linked so far, and then the pool.
abbrev pub ids : Growing → List String
ids g = targets g.links ++ g.pool

targets-append : (ls ms : List CascadeLink) → targets (ls ++ ms) ≡ targets ls ++ targets ms
unfolding targets
targets-append [] ms = refl
targets-append (l ∷ ls) ms = ap (◌∷◌ l.target) (targets-append ls ms)

ids-place :
    (tier : ℕ) (parent : Ref) (child_id : String) (pool : List String) (g : Growing)
    → g.pool ≡ child_id ∷ pool
    → ids (place tier parent child_id pool g) ≡ ids g
unfolding place targets
ids-place tier parent child_id pool g e =
    ap (λ l. l ++ pool)
      (targets-append g.links (record { source = parent.id; target = child_id } ∷ []))
    ∙ append_assoc (targets g.links) (child_id ∷ []) pool
    ∙ ap (λ l. targets g.links ++ l) (sym e)

place-pool :
    (tier : ℕ) (parent : Ref) (child_id : String) (pool : List String) (g : Growing)
    → (place tier parent child_id pool g).pool ≡ pool
unfolding place
place-pool tier parent child_id pool g = refl

ids-adopt :
    (fanout tier : ℕ) (parent : Ref) (pool : List String) (g : Growing)
    → g.pool ≡ pool
    → ids (adopt fanout tier parent pool g).0 ≡ ids g
unfolding adopt
ids-adopt zero tier parent pool g e = refl
ids-adopt (suc fanout) tier parent [] g e = refl
ids-adopt (suc fanout) tier parent (child_id ∷ pool) g e =
    ids-adopt fanout tier parent pool (place tier parent child_id pool g)
      (place-pool tier parent child_id pool g)
    ∙ ids-place tier parent child_id pool g e

ids-spread :
    (fanout tier : ℕ) (frontier : List Ref) (g : Growing)
    → ids (spread fanout tier frontier g).0 ≡ ids g
unfolding spread
ids-spread fanout tier [] g = refl
ids-spread fanout tier (parent ∷ frontier) g =
    let g' = (adopt fanout tier parent g.pool g).0 in
    let first = ids-adopt fanout tier parent g.pool g refl in
    elim (Bool-cases (is_empty g'.pool)) [
      | inl used ↦ rw used first
      | inr left ↦ rw left (ids-spread fanout tier frontier g' ∙ first)
    ]

ids-grow :
    (fuel viewer_count fanout viewers_per_node : ℕ) (frontier : List Ref) (tier : ℕ) (g : Growing)
    → ids (grow fuel viewer_count fanout viewers_per_node frontier tier g).0 ≡ ids g
unfolding grow
ids-grow zero viewer_count fanout viewers_per_node frontier tier g = refl
ids-grow (suc fuel) viewer_count fanout viewers_per_node frontier tier g =
    let grown_once = spread fanout tier frontier g in
    let g' = grown_once.0 in
    let labelled : Growing = record g' { store = relabel frontier g'.store } in
    let once = ids-spread fanout tier frontier g in
    let rest =
      ids-grow fuel viewer_count fanout viewers_per_node grown_once.1 (suc tier) labelled in
    elim (Bool-cases
      (ltb (length frontier * viewers_per_node) viewer_count && not (is_empty g.pool))) [
        | inl more ↦ elim (Bool-cases (is_empty grown_once.1)) [
          | inl stuck ↦ rw (more, stuck) once
          | inr going ↦ rw (more, going) (rest ∙ once)
        ]
        | inr done ↦ rw done refl
      ]

length-adopt :
    (fanout tier : ℕ) (parent : Ref) (pool : List String) (g : Growing)
    → g.pool ≡ pool
    → length (adopt fanout tier parent pool g).0.pool + length (adopt fanout tier parent pool g).1
      ≡ length pool
unfolding adopt place
length-adopt zero tier parent pool g e = omega (arith, ap length e)
length-adopt (suc fanout) tier parent [] g e = omega (arith, ap length e)
length-adopt (suc fanout) tier parent (child_id ∷ pool) g e =
    omega (arith, length-adopt fanout tier parent pool (place tier parent child_id pool g) refl)

length-spread :
    (fanout tier : ℕ) (frontier : List Ref) (g : Growing)
    → length (spread fanout tier frontier g).0.pool + length (spread fanout tier frontier g).1
      ≡ length g.pool
unfolding spread
length-spread fanout tier [] g = omega arith
length-spread fanout tier (parent ∷ frontier) g =
    let adopted = adopt fanout tier parent g.pool g in
    let first = length-adopt fanout tier parent g.pool g refl in
    elim (Bool-cases (is_empty adopted.0.pool)) [
      | inl used ↦ rw used first
      | inr left ↦ rw left (
          omega (
            arith,
            first,
            length-spread fanout tier frontier adopted.0,
            length-append adopted.1 (spread fanout tier frontier adopted.0).1,
          ))
    ]

-- A first parent takes at least one of a pool that is not empty.
spread-some :
    (fanout tier : ℕ) (frontier : List Ref) (g : Growing)
    → is_empty frontier ≡ false
    → is_empty g.pool ≡ false
    → is_empty (spread (suc fanout) tier frontier g).1 ≡ false
unfolding spread adopt
spread-some fanout tier [] g e some' = absurd (cc)
spread-some fanout tier (parent ∷ frontier) g e some' =
    let adopted = adopt (suc fanout) tier parent g.pool g in
    let first = adopt-some g.pool some' in
    elim (Bool-cases (is_empty adopted.0.pool)) [
      | inl used ↦ rw used first
      | inr left ↦ rw left (more adopted.1 (spread (suc fanout) tier frontier adopted.0).1 first)
    ]
  where
    adopt-some :
        (pool : List String)
        → is_empty pool ≡ false
        → is_empty (adopt (suc fanout) tier parent pool g).1 ≡ false
    adopt-some [] e = absurd (cc)
    adopt-some (child_id ∷ pool) e = refl

    more : (xs ys : List Ref) → is_empty xs ≡ false → is_empty (xs ++ ys) ≡ false
    more [] ys e = absurd (cc)
    more (x ∷ xs) ys e = refl

length_of_some {ℓ} : {A : Type ℓ} (xs : List A) → is_empty xs ≡ false → 1 ≤ length xs
length_of_some [] e = absurd (cc)
length_of_some (x ∷ xs) e = omega arith

empty_of_length {ℓ} : {A : Type ℓ} (xs : List A) → length xs ≤ 0 → xs ≡ []
empty_of_length [] h = refl
empty_of_length (x ∷ xs) h = absurd (omega arith)

-- Why the loop ends.
abbrev pub Stops : ℕ → ℕ → Growing × List Ref × ℕ → Type 0
Stops viewer_count viewers_per_node out =
    (viewer_count ≤ length out.1 * viewers_per_node) ⊎ (out.0.pool ≡ [])

stop_of_test :
    (frontier viewer_count viewers_per_node : ℕ) (pool : List String)
    → (ltb (frontier * viewers_per_node) viewer_count && not (is_empty pool)) ≡ false
    → (viewer_count ≤ frontier * viewers_per_node) ⊎ (pool ≡ [])
stop_of_test frontier viewer_count viewers_per_node [] e = inr refl
stop_of_test frontier viewer_count viewers_per_node (x ∷ pool) e = inl (ground arith)

grow-Stops :
    (fuel viewer_count fanout viewers_per_node : ℕ) (frontier : List Ref) (tier : ℕ) (g : Growing)
    → is_empty frontier ≡ false
    → length g.pool ≤ fuel
    → Stops viewer_count viewers_per_node
        (grow fuel viewer_count (suc fanout) viewers_per_node frontier tier g)
unfolding grow
grow-Stops zero viewer_count fanout viewers_per_node frontier tier g some' h =
    inr (empty_of_length g.pool h)
grow-Stops (suc fuel) viewer_count fanout viewers_per_node frontier tier g some' h =
    let grown_once = spread (suc fanout) tier frontier g in
    let g' = grown_once.0 in
    let labelled : Growing = record g' { store = relabel frontier g'.store } in
    let total = length-spread (suc fanout) tier frontier g in
    elim (Bool-cases
      (ltb (length frontier * viewers_per_node) viewer_count && not (is_empty g.pool))) [
        | inl more ↦
            let going = spread-some fanout tier frontier g some' (ground arith) in
            rw (more, going)
              (grow-Stops fuel viewer_count fanout viewers_per_node grown_once.1 (suc tier) labelled
                going (omega (arith, total, length_of_some grown_once.1 going)))
        | inr done ↦
            rw done (stop_of_test (length frontier) viewer_count viewers_per_node g.pool done)
      ]

-- With a fan-out of at least one, the tree that grows links the available nodes other than the origin
-- in their order, each occurrence once, and the others stay in the pool. The loop ends of itself: when
-- the last frontier can serve the viewers, or no node is left.
pub grown_lem :
    (p : PlanParams)
    → 1 ≤ p.fanout
    → (targets (grown p).0.links ++ (grown p).0.pool ≡ (start p).pool)
      × ((p.viewer_count ≤ length (grown p).1 * p.viewers_per_node) ⊎ ((grown p).0.pool ≡ []))
unfolding grown targets
grown_lem p h = (
  ids-grow (length (start p).pool) p.viewer_count p.fanout p.viewers_per_node
      (record { address = 0; id = p.origin_id } ∷ []) 0 (start p),
  subst
      (λ f. Stops p.viewer_count p.viewers_per_node (
        grow (length (start p).pool) p.viewer_count f p.viewers_per_node
          (record { address = 0; id = p.origin_id } ∷ []) 0 (start p)))
      (pred_of p.fanout h)
      (grow-Stops (length (start p).pool) p.viewer_count (p.fanout - 1) p.viewers_per_node
        (record { address = 0; id = p.origin_id } ∷ []) 0 (start p) refl (omega arith)),
)
  where
    pred_of : (n : ℕ) → 1 ≤ n → suc (n - 1) ≡ n
    pred_of n h' = omega arith

-- What the leaves can serve together.
unfoldable pub total_capacity : (String → ℕ) → List Ref → ℕ
total_capacity cap [] = 0
total_capacity cap (leaf ∷ leaves) = cap leaf.id + total_capacity cap leaves

assign-remaining :
    (cap : String → ℕ) (leaves : List Ref) (remaining : ℕ) (store : List CascadePlanNode)
    → (assign cap leaves remaining store).1 ≡ remaining - total_capacity cap leaves
unfolding assign total_capacity
assign-remaining cap [] remaining store = omega arith
assign-remaining cap (leaf ∷ leaves) remaining store =
    let slots = min (cap leaf.id) remaining in
    let store' = update_at leaf.address (λ n. record n { viewer_slots = slots }) store in
    let rest = assign-remaining cap leaves (remaining - slots) store' in
    elim (Bool-cases (remaining == 0)) [
      | inl none' ↦ rw none' (ground arith)
      | inr some' ↦ rw some' (omega (arith, rest))
    ]

-- The viewers that a plan serves and those that it leaves unserved are all the viewers, and what it
-- leaves unserved is what exceeds the capacities of its leaves together.
pub finish_serves :
    (p : PlanParams) (tier : ℕ) (g : Growing)
    → ((finish p tier g).served_viewers + (finish p tier g).unmet_viewers ≡ p.viewer_count)
      × ((finish p tier g).unmet_viewers
          ≡ p.viewer_count
            - total_capacity
                (cap_for p.origin_id p.viewers_per_node p.capacity_of)
                (leaves_of g.nodes g.store))
unfolding finish
finish_serves p tier g =
    let remaining =
      assign-remaining (cap_for p.origin_id p.viewers_per_node p.capacity_of)
        (leaves_of g.nodes g.store) p.viewer_count g.store in
    (omega (arith, remaining), remaining)
