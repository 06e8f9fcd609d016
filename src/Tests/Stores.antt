-- ===== src/Tests/Stores.antt =====
-- A lock held until 50, and a store with one entry that expires at 50, one at 90 and one never.
use rtcforge.Map
use rtcforge.Map.{Distinct, contains}
use rtcforge.Prelude.{
  ℕ, List, [], ◌∷◌, none, some, ◌≡◌, refl, inl, inr, arith, All, text_key, filter_by, ne_of_same,
}
use rtcforge.Core.Lock.{Holding, MemoryLock, LockCall, acquire, run}
use rtcforge.Core.Lock.Exclusion.{Leaves, acquire_excludes}
use rtcforge.Core.StateStore.{MemoryStateStore, keys}
use rtcforge.Core.StateStore.Expiry.{Unseen, is_listed, keys_lem}

abbrev holding : Holding
holding = record { token = "mine"; expires_at = 50 }

abbrev lock : MemoryLock
lock = record { held = ("room", holding) ∷ [] }

abbrev attempts : List LockCall
attempts =
    LockCall.acquires 10 "yours" "room" 90
    ∷ LockCall.releases "room" "yours"
    ∷ LockCall.acquires 60 "theirs" "hall" 5
    ∷ []

holding-found : Map.get "room" lock.held ≡ some holding
unfolding Map.get
holding-found = refl

attempts-leave : All (Leaves "room" holding) attempts
attempts-leave = (
  inr (omega arith),
  (inr (ne_of_same "yours" "mine" refl), (inl (ne_of_same "hall" "room" refl), tt)),
)

acquire_excludes_example :
    acquire 49 "yours" "room" 10 (run attempts lock) ≡ (run attempts lock, none)
acquire_excludes_example =
    acquire_excludes "room" holding attempts lock 49 "yours" 10 holding-found attempts-leave
      (omega arith)

abbrev store : MemoryStateStore ℕ
store = record {
  entries =
      ("a1", record { value = 1; expires_at = some 50 })
      ∷ ("a2", record { value = 2; expires_at = some 90 })
      ∷ ("b", record { value = 3; expires_at = none })
      ∷ [];
}

store-Distinct : Distinct (Map.keys store.entries)
unfolding contains
store-Distinct = (refl, (refl, (refl, tt)))

keys_lem_example :
    ((keys 60 (some "a") store).1
      ≡ filter_by (is_listed 60 (some "a") store) (Map.keys store.entries))
    × Unseen 60 store (keys 60 (some "a") store).0
keys_lem_example = keys_lem 60 (some "a") store store-Distinct
