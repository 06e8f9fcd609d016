-- ===== src/Sfu/SfuNode.antt =====
-- packages/sfu/src/SfuNode.ts: a forwarding node. The collection of statistics is left out.
pub mod Draining
use rtcforge.Map.{contains}
use rtcforge.Prelude.{
  ℕ, Bool, true, false, not, ◌&&◌, ◌||◌, List, [], ◌∷◌, ◌++◌, String, leb, ◌===◌, if◌then◌else◌,
  text_key,
}

pub data SfuNodeEvent : Type 0 where
  load_reported : ℕ → SfuNodeEvent
  overloaded failed_now recovered draining_now drained : SfuNodeEvent

-- The one resolver that a drain registers: `waiting` while it stands in the set, `resolving` once the
-- drain's promise is resolved and the rest of the drain is to run.
pub record SfuNode : Type 0 where
  pub id : String
  pub region : String
  pub capacity : ℕ
  pub load : ℕ
  pub failed : Bool
  pub draining : Bool
  pub rooms : List String
  pub waiting : Bool
  pub resolving : Bool
  pub events : List SfuNodeEvent

abbrev pub default_capacity : ℕ
default_capacity = 100

unfoldable pub new_node : String → String → ℕ → SfuNode
new_node id region capacity = record {
  id = id;
  region = region;
  capacity = capacity;
  load = 0;
  failed = false;
  draining = false;
  rooms = [];
  waiting = false;
  resolving = false;
  events = [];
}

abbrev pub is_overloaded : SfuNode → Bool
is_overloaded n = leb n.capacity n.load

unfoldable pub emit : SfuNodeEvent → SfuNode → SfuNode
emit e n = record n { events = n.events ++ (e ∷ []) }

unfoldable pub report_load : ℕ → SfuNode → SfuNode
unfolding emit
report_load load n =
    let loaded = emit (load_reported load) (record n { load = load }) in
    if not (is_overloaded n) && is_overloaded loaded then emit overloaded loaded else loaded

-- The resolvers are called and the set is cleared.
unfoldable pub resolve : SfuNode → SfuNode
resolve n = record n { waiting = false; resolving = n.resolving || n.waiting }

unfoldable pub mark_failed : SfuNode → SfuNode
unfolding emit resolve
mark_failed n =
    let down = record n { failed = true } in
    if n.failed then n else emit failed_now (if n.draining then resolve down else down)

unfoldable pub mark_recovered : SfuNode → SfuNode
unfolding emit
mark_recovered n = if not n.failed then n else emit recovered (record n { failed = false })

unfoldable pub track_room : String → SfuNode → SfuNode
track_room room n = record n {
  rooms = if contains room n.rooms then n.rooms else n.rooms ++ (room ∷ []);
}

unfoldable pub remove_all : String → List String → List String
remove_all room [] = []
remove_all room (r ∷ rooms) =
    let rest = remove_all room rooms in if r === room then rest else r ∷ rest

abbrev pub is_empty {ℓ} : {A : Type ℓ} → List A → Bool
is_empty [] = true
is_empty (x ∷ xs) = false

unfoldable pub untrack_room : String → SfuNode → SfuNode
unfolding resolve remove_all
untrack_room room n =
    let left = record n { rooms = remove_all room n.rooms } in
    if n.draining && is_empty left.rooms then resolve left else left

-- `drain` up to its `await`.
unfoldable pub drain : SfuNode → SfuNode
unfolding emit
drain n =
    let begun = emit draining_now (record n { draining = true }) in
    if n.draining
    then n
    else if is_empty n.rooms
    then record begun { resolving = true }
    else record begun { waiting = true }

-- The drain's timer fires, if it still runs.
unfoldable pub drain_timeout : SfuNode → SfuNode
unfolding resolve
drain_timeout n = if n.waiting then resolve n else n

-- The rest of a drain that was resolved.
unfoldable pub drain_end : SfuNode → SfuNode
unfolding emit
drain_end n =
    if n.resolving then emit drained (record n { draining = false; resolving = false }) else n
