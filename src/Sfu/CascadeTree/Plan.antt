-- ===== src/Sfu/CascadeTree/Plan.antt =====
-- `planCascadeTree` of packages/sfu/src/CascadeTree.ts. The plan's nodes are objects that several
-- variables share: they stand in a store, and a node is its address there. Counts of viewers and
-- capacities are natural numbers.
use rtcforge.Map
use rtcforge.Map.{Map}
use rtcforge.Prelude.{
  ℕ, zero, suc, ◌+◌, ◌-◌, ◌*◌, Bool, true, false, not, ◌&&◌, List, [], ◌∷◌, ◌++◌, Option, none,
  some, String, ltb, ◌==◌, ◌===◌, if◌then◌else◌, min, length, filter_by, map, text_key,
}

pub data CascadeRole : Type 0 where
  origin relay edge : CascadeRole

pub record CascadePlanNode : Type 0 where
  pub id : String
  pub role : CascadeRole
  pub parent_id : Option String
  pub children : List String
  pub tier : ℕ
  pub viewer_slots : ℕ

pub record CascadeLink : Type 0 where
  pub source : String
  pub target : String

-- `nodes` gives the address in `store` of the node with an id.
pub record CascadePlan : Type 0 where
  pub origin_id : String
  pub store : List CascadePlanNode
  pub nodes : Map String ℕ
  pub links : List CascadeLink
  pub edges : List String
  pub tiers : ℕ
  pub served_viewers : ℕ
  pub unmet_viewers : ℕ

-- The variables of the function while the tree grows.
pub record Growing : Type 0 where
  pub store : List CascadePlanNode
  pub nodes : Map String ℕ
  pub links : List CascadeLink
  pub pool : List String

-- A node with its id, which never changes.
pub record Ref : Type 0 where
  pub address : ℕ
  pub id : String

pub data Planned : Type 0 where
  bad_fanout bad_viewers_per_node : Planned
  plan : CascadePlan → Planned

unfoldable pub update_at {ℓ} : {A : Type ℓ} → ℕ → (A → A) → List A → List A
update_at a f [] = []
update_at zero f (x ∷ xs) = f x ∷ xs
update_at (suc a) f (x ∷ xs) = x ∷ update_at a f xs

abbrev pub is_empty {ℓ} : {A : Type ℓ} → List A → Bool
is_empty [] = true
is_empty (x ∷ xs) = false

-- A new child of the node `parent`.
unfoldable pub place : ℕ → Ref → String → List String → Growing → Growing
unfolding update_at
place tier parent child_id pool g = record {
  store =
      update_at parent.address (λ n. record n { children = n.children ++ (child_id ∷ []) }) g.store
      ++ (record {
        id = child_id;
        role = edge;
        parent_id = some parent.id;
        children = [];
        tier = suc tier;
        viewer_slots = 0;
      }
          ∷ []);
  nodes = Map.set child_id (length g.store) g.nodes;
  links = g.links ++ (record { source = parent.id; target = child_id } ∷ []);
  pool = pool;
}

-- The loop over `i`: at most `fanout` children for one parent.
unfoldable pub adopt : ℕ → ℕ → Ref → List String → Growing → Growing × List Ref
unfolding place
adopt zero tier parent pool g = (g, [])
adopt (suc fanout) tier parent [] g = (g, [])
adopt (suc fanout) tier parent (child_id ∷ pool) g =
    let (g', next) = adopt fanout tier parent pool (place tier parent child_id pool g) in
    (g', record { address = length g.store; id = child_id } ∷ next)

-- The loop over the frontier.
unfoldable pub spread : ℕ → ℕ → List Ref → Growing → Growing × List Ref
unfolding adopt
spread fanout tier [] g = (g, [])
spread fanout tier (parent ∷ frontier) g =
    let (g', first) = adopt fanout tier parent g.pool g in
    let (g'', rest) = spread fanout tier frontier g' in
    if is_empty g'.pool then (g', first) else (g'', first ++ rest)

-- A parent in the frontier that has got children is a relay.
abbrev pub to_relay : CascadePlanNode → CascadePlanNode
to_relay n = elim n.role [
  | origin ↦ n
  | relay ↦ if is_empty n.children then n else record n { role = relay }
  | edge ↦ if is_empty n.children then n else record n { role = relay }
]

unfoldable pub relabel : List Ref → List CascadePlanNode → List CascadePlanNode
unfolding update_at
relabel [] store = store
relabel (p ∷ frontier) store = relabel frontier (update_at p.address to_relay store)

-- The `while` loop: the tree, its last frontier and tier. Every round takes from the pool.
unfoldable pub grow : ℕ → ℕ → ℕ → ℕ → List Ref → ℕ → Growing → Growing × List Ref × ℕ
unfolding spread relabel
grow zero viewer_count fanout viewers_per_node frontier tier g = (g, frontier, tier)
grow (suc fuel) viewer_count fanout viewers_per_node frontier tier g =
    let (g', next) = spread fanout tier frontier g in
    let labelled = record g' { store = relabel frontier g'.store } in
    let rest = grow fuel viewer_count fanout viewers_per_node next (suc tier) labelled in
    if ltb (length frontier * viewers_per_node) viewer_count && not (is_empty g.pool)
    then (if is_empty next then (g', frontier, tier) else rest)
    else (g, frontier, tier)

abbrev pub node_at : ℕ → List CascadePlanNode → Option CascadePlanNode
node_at a [] = none
node_at zero (n ∷ store) = some n
node_at (suc a) (n ∷ store) = node_at a store

abbrev pub add_leaf : ℕ → Option CascadePlanNode → List Ref → List Ref
add_leaf a none leaves = leaves
add_leaf a (some n) leaves =
    if is_empty n.children then record { address = a; id = n.id } ∷ leaves else leaves

-- The nodes of the map without children.
unfoldable pub leaves_of : Map String ℕ → List CascadePlanNode → List Ref
leaves_of [] store = []
leaves_of ((id, a) ∷ nodes) store = add_leaf a (node_at a store) (leaves_of nodes store)

-- The loop that hands out the viewers, with what remains.
unfoldable pub assign :
    (String → ℕ) → List Ref → ℕ → List CascadePlanNode → List CascadePlanNode × ℕ
unfolding update_at
assign cap_for [] remaining store = (store, remaining)
assign cap_for (leaf ∷ leaves) remaining store =
    let slots = min (cap_for leaf.id) remaining in
    let rest =
      assign cap_for leaves (remaining - slots)
        (update_at leaf.address (λ n. record n { viewer_slots = slots }) store) in
    if remaining == 0 then (store, remaining) else rest

abbrev pub serves : List CascadePlanNode → Ref → Bool
serves store leaf = elim (node_at leaf.address store) [
  | none ↦ false
  | some n ↦ ltb 0 n.viewer_slots
]

abbrev pub ref_id : Ref → String
ref_id r = r.id

abbrev pub cap_for : String → ℕ → Option (String → ℕ) → String → ℕ
cap_for origin_id viewers_per_node none id = viewers_per_node
cap_for origin_id viewers_per_node (some capacity_of) id =
    if id === origin_id then viewers_per_node else capacity_of id

pub record PlanParams : Type 0 where
  pub origin_id : String
  pub viewer_count : ℕ
  pub fanout : ℕ
  pub viewers_per_node : ℕ
  pub available_node_ids : List String
  pub capacity_of : Option (String → ℕ)

abbrev pub root : String → CascadePlanNode
root origin_id = record {
  id = origin_id;
  role = origin;
  parent_id = none;
  children = [];
  tier = 0;
  viewer_slots = 0;
}

abbrev pub start : PlanParams → Growing
start p = record {
  store = root p.origin_id ∷ [];
  nodes = (p.origin_id, 0) ∷ [];
  links = [];
  pool = filter_by (λ id. not (id === p.origin_id)) p.available_node_ids;
}

-- The tree, its last frontier and its last tier.
unfoldable pub grown : PlanParams → Growing × List Ref × ℕ
unfolding grow
grown p =
    grow (length (start p).pool) p.viewer_count p.fanout p.viewers_per_node
      (record { address = 0; id = p.origin_id } ∷ []) 0 (start p)

unfoldable pub finish : PlanParams → ℕ → Growing → CascadePlan
unfolding leaves_of assign
finish p tier g =
    let leaves = leaves_of g.nodes g.store in
    let (store, remaining) =
      assign (cap_for p.origin_id p.viewers_per_node p.capacity_of) leaves p.viewer_count g.store in
    record {
      origin_id = p.origin_id;
      store = store;
      nodes = g.nodes;
      links = g.links;
      edges = map ref_id (filter_by (serves store) leaves);
      tiers = tier + 1;
      served_viewers = p.viewer_count - remaining;
      unmet_viewers = remaining;
    }

unfoldable pub plan_cascade_tree : PlanParams → Planned
unfolding grown finish
plan_cascade_tree p =
    let (g, frontier, tier) = grown p in
    if ltb p.fanout 1
    then bad_fanout
    else if ltb p.viewers_per_node 1
    then bad_viewers_per_node
    else plan (finish p tier g)
