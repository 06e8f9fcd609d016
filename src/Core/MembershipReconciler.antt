-- ===== src/Core/MembershipReconciler.antt =====
-- packages/core/src/MembershipReconciler.ts: what has changed between two memberships.
pub mod Followed
pub mod Passes
use rtcforge.Map.{contains}
use rtcforge.Prelude.{
  ℕ, zero, suc, Bool, true, false, not, ◌||◌, List, [], ◌∷◌, ◌++◌, Option, none, some, String,
  ◌===◌, if◌then◌else◌, text_key,
}

-- A call of a handler. Of a node only its id is looked at.
pub data HandlerCall : Type 0 where
  on_add on_update on_remove : String → HandlerCall

-- The ids of the nodes of a snapshot, and whether ids that it lacks are removed.
pub record Snapshot : Type 0 where
  pub nodes : List String
  pub allow_remove : Bool

-- What a handler does while it runs: the snapshots that it brings about, for each of which `_sync` is
-- called at once, and whether it throws.
pub record Reaction : Type 0 where
  pub snapshots : List Snapshot
  pub throws : Bool

-- `calls` logs the calls of the handlers, `latest` is what `_sync` was called with last, and `reactions` holds what the next ones will do. Once they
-- are used up, a handler does nothing and returns.
pub record MembershipReconciler : Type 0 where
  pub ids : List String
  pub seen : Bool
  pub watching : Bool
  pub syncing : Bool
  pub pending : Option Snapshot
  pub calls : List HandlerCall
  pub latest : Option Snapshot
  pub reactions : List Reaction

abbrev pub new_reconciler : List Reaction → MembershipReconciler
new_reconciler reactions = record {
  ids = [];
  seen = false;
  watching = false;
  syncing = false;
  pending = none;
  calls = [];
  latest = none;
  reactions = reactions;
}

-- The state, and whether an exception is under way.
abbrev pub Outcome : Type 0
Outcome = MembershipReconciler × Bool

unfoldable pub without : String → List String → List String
without id [] = []
without id (x ∷ xs) = let rest = without id xs in if x === id then rest else x ∷ rest

module _ (sync_again : Snapshot → MembershipReconciler → Outcome) where
  -- The snapshots of a handler, one after the other. An exception goes through.
  unfoldable pub deliver : List Snapshot → MembershipReconciler → Outcome
  deliver [] s = (s, false)
  deliver (snapshot ∷ snapshots) s =
      let done = sync_again snapshot s in
      let rest = deliver snapshots done.0 in if done.1 then done else rest

  unfoldable pub react : List Reaction → MembershipReconciler → Outcome
  unfolding deliver
  react [] s = (s, false)
  react (r ∷ reactions) s =
      let done = deliver r.snapshots (record s { reactions = reactions }) in
      (done.0, done.1 || r.throws)

  -- A call of a handler.
  unfoldable pub call : HandlerCall → MembershipReconciler → Outcome
  unfolding react
  call c s = react s.reactions (record s { calls = s.calls ++ (c ∷ []) })

  -- The body of the loop over the nodes.
  unfoldable pub visit_one : String → MembershipReconciler → Outcome
  unfolding call
  visit_one id s =
      if contains id s.ids
      then call (on_update id) s
      else call (on_add id) (record s { ids = s.ids ++ (id ∷ []) })

  -- The loop over the nodes.
  unfoldable pub visit : List String → MembershipReconciler → Outcome
  unfolding visit_one
  visit [] s = (s, false)
  visit (id ∷ nodes) s =
      let done = visit_one id s in let rest = visit nodes done.0 in if done.1 then done else rest

  -- The body of the loop over the ids.
  unfoldable pub prune_one : List String → String → MembershipReconciler → Outcome
  unfolding call without
  prune_one live id s =
      if contains id live
      then (s, false)
      else call (on_remove id) (record s { ids = without id s.ids })

  -- The loop over the ids.
  unfoldable pub prune : List String → List String → MembershipReconciler → Outcome
  unfolding prune_one
  prune live [] s = (s, false)
  prune live (id ∷ ids) s =
      let done = prune_one live id s in
      let rest = prune live ids done.0 in if done.1 then done else rest

  -- `_apply`
  unfoldable pub apply : Snapshot → MembershipReconciler → Outcome
  unfolding visit prune
  apply snapshot s =
      let visited = visit snapshot.nodes s in
      if visited.1 || not snapshot.allow_remove
      then visited
      else prune snapshot.nodes visited.0.ids visited.0

-- The last lines of `_sync`.
abbrev pub sync_pending :
    (Snapshot → MembershipReconciler → Outcome) → Option Snapshot → MembershipReconciler → Outcome
sync_pending sync_again none s = (s, false)
sync_pending sync_again (some next) s = sync_again next (record s { pending = none })

-- `_sync`, with fuel for the calls of itself.
unfoldable pub sync : ℕ → Snapshot → MembershipReconciler → Outcome
unfolding apply
sync zero snapshot s = (s, false)
sync (suc fuel) snapshot s =
    let applied =
      apply (sync fuel) snapshot (record s { syncing = true; latest = some snapshot }) in
    let free = record (applied.0) { syncing = false } in
    let rest = sync_pending (sync fuel) free.pending free in
    if s.syncing
    then (record s { pending = some snapshot; latest = some snapshot }, false)
    else if applied.1
    then (free, true)
    else rest

-- The membership's watch, and the answer to `list` that `start` asks for.
unfoldable pub watched : ℕ → List String → MembershipReconciler → Outcome
unfolding sync
watched fuel nodes s =
    sync fuel (record { nodes = nodes; allow_remove = true }) (record s { seen = true })

unfoldable pub listed : ℕ → List String → MembershipReconciler → Outcome
unfolding sync
listed fuel nodes s =
    if s.seen then (s, false) else sync fuel (record { nodes = nodes; allow_remove = false }) s

unfoldable pub start : MembershipReconciler → MembershipReconciler
start s = if s.watching then s else record s { watching = true }

unfoldable pub dispose : MembershipReconciler → MembershipReconciler
dispose s = record s { watching = false }
