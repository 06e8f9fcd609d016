-- ===== src/Sfu/SfuCluster/Assigned.antt =====
-- The node that a cluster assigns.
use rtcforge.Prelude.{
  ℕ, true, false, List, Option, none, some, String, ◌≡◌, refl, arith, All, OnSome, if_lem,
}
use rtcforge.Sfu.SfuNode.{SfuNode, is_empty}
use rtcforge.Sfu.PlacementStrategy.{regional_pool, select_least, least_of}
use rtcforge.Sfu.PlacementStrategy.Least.{
  NoLess, IsLeast, least_of-IsLeast, on_filter, on_regional_pool, regional_pool-none,
}
use rtcforge.Sfu.SfuCluster.{SfuCluster, all_nodes, is_active, get_active_nodes, assign_node}

-- What a room gets: a registered node that is neither failed nor draining, and no more loaded than
-- any node of the pool.
pub record IsServing (c : SfuCluster) (region : Option String) (n : ℕ × SfuNode) : Type 0 where
  pub registered : OnSome (λ m. m ≡ n) (all_nodes c)
  pub up : n.1.failed ≡ false
  pub staying : n.1.draining ≡ false
  pub lowest : All (NoLess n) (regional_pool (get_active_nodes c) region)

abbrev pub IsAssigned : SfuCluster → Option String → Option (ℕ × SfuNode) → Type 0
IsAssigned c region none = is_empty (get_active_nodes c) ≡ true
IsAssigned c region (some n) = IsServing c region n

select_least-some :
    (ns : List (ℕ × SfuNode)) (region key : Option String) (n : ℕ × SfuNode)
    → select_least ns region key ≡ some n
    → IsLeast n (regional_pool ns region)
unfolding select_least
select_least-some ns region key n e =
    if_lem (λ o. o ≡ some n → IsLeast n (regional_pool ns region)) (is_empty ns) none
      (least_of (regional_pool ns region)) (λ none'. λ k. absurd (ground (arith, k)))
      (λ some'. λ k. least_of-IsLeast (regional_pool ns region) n k) e

select_least-none :
    (ns : List (ℕ × SfuNode)) (region key : Option String)
    → select_least ns region key ≡ none
    → is_empty ns ≡ true
unfolding select_least
select_least-none ns region key e =
    if_lem (λ o. o ≡ none → is_empty ns ≡ true) (is_empty ns) none
      (least_of (regional_pool ns region)) (λ none'. λ k. none')
      (λ some'. λ k. regional_pool-none ns region k) e

active-up : (n : ℕ × SfuNode) → is_active n ≡ true → (n.1.failed ≡ false) × (n.1.draining ≡ false)
active-up n h = (ground (arith, h), ground (arith, h))

select_least-IsAssigned :
    (c : SfuCluster) (region key : Option String) (o : Option (ℕ × SfuNode))
    → select_least (get_active_nodes c) region key ≡ o
    → IsAssigned c region o
unfolding get_active_nodes
select_least-IsAssigned c region key none e = select_least-none (get_active_nodes c) region key e
select_least-IsAssigned c region key (some n) e =
    let v = select_least-some (get_active_nodes c) region key n e in
    let (registered, active) =
      on_filter n is_active (all_nodes c)
        (on_regional_pool n (get_active_nodes c) region v.one_of) in
    let (up, staying) = active-up n active in
    record { registered = registered; up = up; staying = staying; lowest = v.lowest }

-- With the strategy of the least load, a room is assigned a registered node that is neither failed nor
-- draining, and that has no more load than any active node of its region, or than any active node
-- where its region has none; it is left without a node only where no node is active.
pub assign_node-IsAssigned :
    (c : SfuCluster) (region key : Option String)
    → IsAssigned c region (assign_node select_least region key c)
unfolding assign_node
assign_node-IsAssigned c region key = select_least-IsAssigned c region key _ refl
