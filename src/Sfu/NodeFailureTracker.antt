-- ===== src/Sfu/NodeFailureTracker.antt =====
-- packages/sfu/src/NodeFailureTracker.ts: the nodes of a cluster that are gone, each reported once.
pub mod Once
use rtcforge.Map
use rtcforge.Map.{Map, contains}
use rtcforge.Prelude.{
  ℕ, Bool, true, false, not, List, [], ◌∷◌, ◌++◌, String, ◌===◌, if◌then◌else◌, filter_by, text_key,
}
use rtcforge.Sfu.SfuNode.{SfuNode}

-- `listeners` has the node object that listens for an id; `lost` is what `onGone` was called with.
pub record NodeFailureTracker : Type 0 where
  pub listeners : Map String ℕ
  pub gone : List String
  pub lost : List String

unfoldable pub fire_gone : String → NodeFailureTracker → NodeFailureTracker
fire_gone id t =
    if contains id t.gone
    then t
    else record t { gone = t.gone ++ (id ∷ []); lost = t.lost ++ (id ∷ []) }

abbrev pub is_not : String → String → Bool
is_not id other = not (id === other)

-- `recovered`
unfoldable pub forgive : String → NodeFailureTracker → NodeFailureTracker
forgive id t = record t { gone = filter_by (is_not id) t.gone }

unfoldable pub attach : ℕ → String → NodeFailureTracker → NodeFailureTracker
unfolding forgive
attach o id t =
    if Map.has id t.listeners
    then t
    else record (forgive id t) { listeners = Map.set id o t.listeners }

unfoldable pub detach : String → NodeFailureTracker → NodeFailureTracker
detach id t = record t { listeners = Map.delete id t.listeners }

unfoldable pub attach_all : List (ℕ × SfuNode) → NodeFailureTracker → NodeFailureTracker
unfolding attach
attach_all [] t = t
attach_all ((o, n) ∷ ns) t = attach_all ns (attach o n.id t)

unfoldable pub new_tracker : List (ℕ × SfuNode) → NodeFailureTracker
unfolding attach_all
new_tracker nodes = attach_all nodes (record { listeners = []; gone = []; lost = [] })

-- The cluster has removed the node.
unfoldable pub node_removed : SfuNode → NodeFailureTracker → NodeFailureTracker
unfolding detach fire_gone
node_removed n t = let t' = detach n.id t in if not n.draining then fire_gone n.id t' else t'

-- The node says that it has failed, or has recovered: it is heard while it is attached.
unfoldable pub node_failed : String → NodeFailureTracker → NodeFailureTracker
unfolding fire_gone
node_failed id t = if Map.has id t.listeners then fire_gone id t else t

unfoldable pub node_recovered : String → NodeFailureTracker → NodeFailureTracker
unfolding forgive
node_recovered id t = if Map.has id t.listeners then forgive id t else t

unfoldable pub dispose : NodeFailureTracker → NodeFailureTracker
dispose t = record t { listeners = []; gone = [] }
