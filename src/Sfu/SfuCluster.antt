-- ===== src/Sfu/SfuCluster.antt =====
-- packages/sfu/src/SfuCluster.ts: a set of nodes. A node is an object that others hold as well: a
-- number, whose state `objects` has. An object listens to overloads once for each entry it has.
pub mod Health
pub mod Assigned
use rtcforge.Map
use rtcforge.Map.{Map, contains, values}
use rtcforge.Prelude.{
  ℕ, zero, suc, ◌+◌, Bool, true, false, not, ◌&&◌, ◌||◌, List, [], ◌∷◌, ◌++◌, Option, none, some,
  String, leb, ◌==◌, if◌then◌else◌, filter_by, all, get_elem?, number_key, text_key,
}
use rtcforge.Sfu.SfuNode.{
  SfuNode, is_overloaded, is_empty, mark_failed, mark_recovered, report_load,
}

pub data RebalanceReason : Type 0 where
  draining failed : RebalanceReason

pub data SfuClusterEvent : Type 0 where
  node_added : ℕ → SfuClusterEvent
  node_removed : ℕ → SfuClusterEvent
  overloaded : SfuClusterEvent
  error : String → SfuClusterEvent

pub record SfuCluster : Type 0 where
  pub objects : List SfuNode
  pub nodes : Map String ℕ
  pub listening : List ℕ
  pub fail_streak : Map String ℕ
  pub pass_streak : Map String ℕ
  pub failure_threshold : ℕ
  pub recovery_threshold : ℕ
  pub rebalanced : List (String × RebalanceReason)
  pub events : List SfuClusterEvent

abbrev pub default_failure_threshold : ℕ
default_failure_threshold = 3

abbrev pub default_recovery_threshold : ℕ
default_recovery_threshold = 2

abbrev pub put_object : ℕ → SfuNode → List SfuNode → List SfuNode
put_object i n [] = []
put_object zero n (m ∷ ms) = n ∷ ms
put_object (suc i) n (m ∷ ms) = m ∷ put_object i n ms

abbrev pub remove_first : ℕ → List ℕ → List ℕ
remove_first o [] = []
remove_first o (p ∷ ps) = let rest = remove_first o ps in if p == o then ps else p ∷ rest

abbrev pub count_of : Option ℕ → ℕ
count_of none = 0
count_of (some n) = n

abbrev pub with_number : ℕ → Option SfuNode → List (ℕ × SfuNode)
with_number o none = []
with_number o (some n) = (o, n) ∷ []

-- The nodes, in the order of the map.
unfoldable pub nodes_of : List SfuNode → List ℕ → List (ℕ × SfuNode)
nodes_of objects [] = []
nodes_of objects (o ∷ os) = with_number o (get_elem? objects o) ++ nodes_of objects os

unfoldable pub all_nodes : SfuCluster → List (ℕ × SfuNode)
unfolding nodes_of
all_nodes c = nodes_of c.objects (values c.nodes)

abbrev pub is_active : ℕ × SfuNode → Bool
is_active n = not n.1.failed && not n.1.draining

unfoldable pub get_active_nodes : SfuCluster → List (ℕ × SfuNode)
unfolding all_nodes
get_active_nodes c = filter_by is_active (all_nodes c)

unfoldable pub emit : SfuClusterEvent → SfuCluster → SfuCluster
emit e c = record c { events = c.events ++ (e ∷ []) }

unfoldable pub remove_entry : Option ℕ → String → SfuCluster → SfuCluster × Bool
unfolding emit
remove_entry none id c = (c, false)
remove_entry (some o) id c = (
  emit (node_removed o) (record c {
    listening = remove_first o c.listening;
    nodes = Map.delete id c.nodes;
    fail_streak = Map.delete id c.fail_streak;
    pass_streak = Map.delete id c.pass_streak;
  }),
  true,
)

unfoldable pub remove_node : String → SfuCluster → SfuCluster × Bool
unfolding remove_entry
remove_node id c = remove_entry (Map.get id c.nodes) id c

unfoldable pub add_node : ℕ → SfuNode → SfuCluster → SfuCluster
unfolding remove_node emit
add_node o n c =
    let c' = if Map.has n.id c.nodes then (remove_node n.id c).0 else c in
    emit (node_added o)
      (record c' { nodes = Map.set n.id o c'.nodes; listening = c'.listening ++ (o ∷ []) })

unfoldable pub assign_node :
    (List (ℕ × SfuNode) → Option String → Option String → Option (ℕ × SfuNode))
    → Option String
    → Option String
    → SfuCluster
    → Option (ℕ × SfuNode)
unfolding get_active_nodes
assign_node select region key c = select (get_active_nodes c) region key

abbrev pub reason_of : SfuNode → RebalanceReason
reason_of n = if n.failed then failed else draining

-- The nodes that `rebalance` reports, in order.
unfoldable pub reports : List (ℕ × SfuNode) → List (String × RebalanceReason)
reports [] = []
reports ((o, n) ∷ ns) =
    let rest = reports ns in if n.draining || n.failed then (n.id, reason_of n) ∷ rest else rest

unfoldable pub rebalance : SfuCluster → SfuCluster
unfolding reports all_nodes emit
rebalance c =
    let found = reports (all_nodes c) in
    let c' = record c { rebalanced = c.rebalanced ++ found } in
    if is_empty found then c' else emit overloaded c'

abbrev pub is_loaded : ℕ × SfuNode → Bool
is_loaded n = is_overloaded n.1

unfoldable pub check_all_overloaded : SfuCluster → SfuCluster
unfolding get_active_nodes emit
check_all_overloaded c =
    let active = get_active_nodes c in
    if not (is_empty active) && all is_loaded active then emit overloaded c else c

-- The listener of each entry that the object has.
unfoldable pub call_listeners : ℕ → List ℕ → SfuCluster → SfuCluster
unfolding check_all_overloaded
call_listeners o [] c = c
call_listeners o (p ∷ ps) c = call_listeners o ps (if p == o then check_all_overloaded c else c)

-- A node reports its load: where that makes it overloaded, its listeners are called.
unfoldable pub node_reports : ℕ → SfuNode → ℕ → SfuCluster → SfuCluster
unfolding report_load call_listeners
node_reports o n load c =
    let n' = report_load load n in
    let c' = record c { objects = put_object o n' c.objects } in
    if not (is_overloaded n) && is_overloaded n' then call_listeners o c.listening c' else c'

-- `_onHealthResult`
unfoldable pub on_health_result : ℕ → SfuNode → Bool → SfuCluster → SfuCluster
unfolding mark_failed mark_recovered emit rebalance
on_health_result o n false c =
    let streak = count_of (Map.get n.id c.fail_streak) + 1 in
    let c' = record c {
      pass_streak = Map.delete n.id c.pass_streak;
      fail_streak = Map.set n.id streak c.fail_streak;
    } in
    if not n.failed && leb c.failure_threshold streak
    then rebalance (
        emit (error n.id) (record c' {
          fail_streak = Map.delete n.id c'.fail_streak;
          objects = put_object o (mark_failed n) c.objects;
        }))
    else c'
on_health_result o n true c =
    let calm = record c { fail_streak = Map.delete n.id c.fail_streak } in
    let streak = count_of (Map.get n.id c.pass_streak) + 1 in
    if not n.failed
    then calm
    else if leb c.recovery_threshold streak
    then record calm {
      pass_streak = Map.delete n.id c.pass_streak;
      objects = put_object o (mark_recovered n) c.objects;
    }
    else record calm { pass_streak = Map.set n.id streak c.pass_streak }
