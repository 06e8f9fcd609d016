-- ===== src/Sfu/CascadeTree/Rooms.antt =====
-- The class `CascadeTree` of packages/sfu/src/CascadeTree.ts: one tree for each room. The cluster's nodes
-- are part of the state, in the order in which they were added.
use Prim.Native.String.{◌++◌ as ◌then◌}
use rtcforge.Map
use rtcforge.Map.{Map, contains}
use rtcforge.Prelude.{
  ℕ, Bool, true, false, not, ◌&&◌, List, [], ◌∷◌, ◌++◌, Option, none, some, String, ltb, ◌===◌,
  if◌then◌else◌, text_key,
}
use rtcforge.Sfu.SfuNode.{SfuNode, track_room, untrack_room}
use rtcforge.Sfu.CascadeTree.Plan.{
  CascadePlan, CascadePlanNode, CascadeLink, Planned, bad_fanout, bad_viewers_per_node, plan,
  node_at, plan_cascade_tree,
}

pub data CascadeTreeEvent : Type 0 where
  tree_built : String → CascadeTreeEvent
  link_created : String → CascadeLink → CascadeTreeEvent
  link_dropped : String → CascadeLink → CascadeTreeEvent
  leaf_assigned : String → String → ℕ → CascadeTreeEvent
  tree_dropped : String → CascadeTreeEvent
  capacity_shortfall : String → ℕ → CascadeTreeEvent
  origin_lost : String → String → CascadeTreeEvent

pub record RoomTree : Type 0 where
  pub origin_id : String
  pub viewer_count : ℕ
  pub tree : CascadePlan

pub record CascadeTree : Type 0 where
  pub fanout : ℕ
  pub viewers_per_node : ℕ
  pub cluster : List SfuNode
  pub rooms : Map String RoomTree
  pub events : List CascadeTreeEvent

unfoldable pub new_tree : ℕ → ℕ → List SfuNode → CascadeTree
new_tree fanout viewers_per_node cluster = record {
  fanout = fanout;
  viewers_per_node = viewers_per_node;
  cluster = cluster;
  rooms = [];
  events = [];
}

-- `cascadeLinkKey`
abbrev pub link_key : CascadeLink → String
link_key l = l.source then ">" then l.target

unfoldable pub keys_of : List CascadeLink → List String
keys_of [] = []
keys_of (l ∷ links) = link_key l ∷ keys_of links

-- `getActiveNodes` of the cluster.
abbrev pub is_active : SfuNode → Bool
is_active n = not n.failed && not n.draining

-- `_activePool`
unfoldable pub active_pool : String → List SfuNode → List String
active_pool origin_id [] = []
active_pool origin_id (n ∷ nodes) =
    let rest = active_pool origin_id nodes in
    if is_active n && not (n.id === origin_id) then n.id ∷ rest else rest

-- `index.get(id)?.capacity ?? this._viewersPerNode`
unfoldable pub capacity_in : ℕ → List SfuNode → String → ℕ
capacity_in viewers_per_node [] id = viewers_per_node
capacity_in viewers_per_node (n ∷ nodes) id =
    let rest = capacity_in viewers_per_node nodes id in if n.id === id then n.capacity else rest

-- A change of the node with the id.
unfoldable pub with_node : (SfuNode → SfuNode) → String → List SfuNode → List SfuNode
with_node f id [] = []
with_node f id (n ∷ nodes) =
    let rest = with_node f id nodes in if n.id === id then f n ∷ nodes else n ∷ rest

unfoldable pub track_all : String → List String → List SfuNode → List SfuNode
unfolding with_node track_room
track_all room_id [] nodes = nodes
track_all room_id (id ∷ ids) nodes = track_all room_id ids (with_node (track_room room_id) id nodes)

-- Every node whose id is not among `kept` forgets the room.
unfoldable pub untrack_others : String → List String → List String → List SfuNode → List SfuNode
unfolding with_node untrack_room
untrack_others room_id kept [] nodes = nodes
untrack_others room_id kept (id ∷ ids) nodes =
    untrack_others room_id kept ids
      (if contains id kept then nodes else with_node (untrack_room room_id) id nodes)

-- The links that stop, then those that start.
unfoldable pub dropped_events : String → List String → List CascadeLink → List CascadeTreeEvent
dropped_events room_id kept [] = []
dropped_events room_id kept (l ∷ links) =
    let rest = dropped_events room_id kept links in
    if contains (link_key l) kept then rest else link_dropped room_id l ∷ rest

unfoldable pub created_events : String → List String → List CascadeLink → List CascadeTreeEvent
created_events room_id known [] = []
created_events room_id known (l ∷ links) =
    let rest = created_events room_id known links in
    if contains (link_key l) known then rest else link_created room_id l ∷ rest

-- `_diff`
unfoldable pub diff : String → List CascadeLink → List CascadeLink → List CascadeTreeEvent
unfolding dropped_events created_events keys_of
diff room_id old_links new_links =
    dropped_events room_id (keys_of new_links) old_links
    ++ created_events room_id (keys_of old_links) new_links

abbrev pub links_of : Option RoomTree → List CascadeLink
links_of none = []
links_of (some t) = t.tree.links

abbrev pub ids_of : Option RoomTree → List String
ids_of none = []
ids_of (some t) = Map.keys t.tree.nodes

abbrev pub slots_of : Option CascadePlanNode → ℕ
slots_of none = 0
slots_of (some n) = n.viewer_slots

abbrev pub slots_at : Option ℕ → List CascadePlanNode → ℕ
slots_at none store = 0
slots_at (some a) store = slots_of (node_at a store)

unfoldable pub leaf_events : String → CascadePlan → List String → List CascadeTreeEvent
leaf_events room_id p [] = []
leaf_events room_id p (id ∷ edges) =
    leaf_assigned room_id id (slots_at (Map.get id p.nodes) p.store) ∷ leaf_events room_id p edges

abbrev pub shortfall : String → ℕ → List CascadeTreeEvent
shortfall room_id unmet = if ltb 0 unmet then capacity_shortfall room_id unmet ∷ [] else []

-- `build`, once the plan is there.
unfoldable pub install :
    String → String → ℕ → CascadePlan → Option RoomTree → CascadeTree → CascadeTree
unfolding diff untrack_others track_all leaf_events
install room_id origin_id viewer_count p prev t = record t {
  cluster =
      track_all room_id (Map.keys p.nodes)
        (untrack_others room_id (Map.keys p.nodes) (ids_of prev) t.cluster);
  rooms =
      Map.set room_id (record { origin_id = origin_id; viewer_count = viewer_count; tree = p })
        t.rooms;
  events =
      t.events
      ++ (diff room_id (links_of prev) p.links
          ++ (leaf_events room_id p p.edges
              ++ (shortfall room_id p.unmet_viewers ++ (tree_built room_id ∷ []))));
}

-- A plan that cannot be made throws before anything has changed.
unfoldable pub built : String → String → ℕ → Planned → CascadeTree → CascadeTree × Bool
unfolding install
built room_id origin_id viewer_count bad_fanout t = (t, false)
built room_id origin_id viewer_count bad_viewers_per_node t = (t, false)
built room_id origin_id viewer_count (plan p) t =
    (install room_id origin_id viewer_count p (Map.get room_id t.rooms) t, true)

-- The plan that `build` asks for.
unfoldable pub plan_for : String → ℕ → CascadeTree → Planned
unfolding plan_cascade_tree active_pool capacity_in
plan_for origin_id viewer_count t = plan_cascade_tree (record {
  origin_id = origin_id;
  viewer_count = viewer_count;
  fanout = t.fanout;
  viewers_per_node = t.viewers_per_node;
  available_node_ids = active_pool origin_id t.cluster;
  capacity_of = some (capacity_in t.viewers_per_node t.cluster);
})

-- `build`, and whether it returned.
unfoldable pub build : String → String → ℕ → CascadeTree → CascadeTree × Bool
unfolding plan_for built
build room_id origin_id viewer_count t =
    built room_id origin_id viewer_count (plan_for origin_id viewer_count t) t

unfoldable pub drop_events : String → List CascadeLink → List CascadeTreeEvent
drop_events room_id [] = []
drop_events room_id (l ∷ links) = link_dropped room_id l ∷ drop_events room_id links

unfoldable pub detach_found : String → Option RoomTree → CascadeTree → CascadeTree × Bool
unfolding untrack_others drop_events
detach_found room_id none t = (t, false)
detach_found room_id (some room) t = (
  record t {
    cluster = untrack_others room_id [] (Map.keys room.tree.nodes) t.cluster;
    rooms = Map.delete room_id t.rooms;
    events = t.events ++ (drop_events room_id room.tree.links ++ (tree_dropped room_id ∷ []));
  },
  true,
)

unfoldable pub detach : String → CascadeTree → CascadeTree × Bool
unfolding detach_found
detach room_id t = detach_found room_id (Map.get room_id t.rooms) t

-- `_onNodeGone`, over the rooms there are when it begins.
unfoldable pub node_gone_in : String → Map String RoomTree → CascadeTree → CascadeTree
unfolding detach build
node_gone_in node_id [] t = t
node_gone_in node_id ((room_id, room) ∷ rooms) t =
    let (lost, _) = detach room_id t in
    let after =
      if not (Map.has node_id room.tree.nodes)
      then t
      else if node_id === room.origin_id
      then record lost { events = lost.events ++ (origin_lost room_id node_id ∷ []) }
      else (build room_id room.origin_id room.viewer_count t).0 in
    node_gone_in node_id rooms after

unfoldable pub node_gone : String → CascadeTree → CascadeTree
unfolding node_gone_in
node_gone node_id t = node_gone_in node_id t.rooms t
