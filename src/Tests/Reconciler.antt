-- ===== src/Tests/Reconciler.antt =====
-- A membership that loses a node and gains one, whose first handler brings a further change about.
use rtcforge.Prelude.{true, false, [], ◌∷◌, refl, arith, text_key}
use rtcforge.Core.MembershipReconciler.{
  Snapshot, MembershipReconciler, new_reconciler, sync, on_add,
}
use rtcforge.Core.MembershipReconciler.Followed.{IsFollowed, IsSynced, follow, hear, sync_lem}

abbrev first : Snapshot
first = record { nodes = "b" ∷ []; allow_remove = true }

abbrev after : Snapshot
after = record { nodes = "b" ∷ "c" ∷ []; allow_remove = true }

abbrev before : MembershipReconciler
before = record (new_reconciler (record { snapshots = after ∷ []; throws = false } ∷ [])) {
  ids = "a" ∷ [];
  calls = on_add "a" ∷ [];
}

before-IsFollowed : IsFollowed before
unfolding follow hear
before-IsFollowed = record { told = λ k. refl }

sync_lem_example : IsSynced (sync 3 first before)
sync_lem_example = sync_lem 3 first before refl refl (omega arith) before-IsFollowed
