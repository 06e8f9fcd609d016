-- ===== src/Core/Lock.antt =====
-- packages/core/src/Lock.ts: `MemoryLock`. The clock's reading and the fresh token are arguments.
pub mod Exclusion
use rtcforge.Map
use rtcforge.Map.{Map}
use rtcforge.Prelude.{
  ℕ, ◌+◌, Bool, List, [], ◌∷◌, Option, none, some, String, ltb, ◌===◌, if◌then◌else◌, text_key,
}

pub record Holding : Type 0 where
  pub token : String
  pub expires_at : ℕ

pub record MemoryLock : Type 0 where
  pub held : Map String Holding

-- `acquire` on what it finds: the lock afterwards, and the token if it was free.
unfoldable pub acquire_found :
    ℕ → String → String → ℕ → Option Holding → MemoryLock → MemoryLock × Option String
acquire_found now token key ttl none l = (
  record { held = Map.set key (record { token = token; expires_at = now + ttl }) l.held },
  some token,
)
acquire_found now token key ttl (some current) l =
    if ltb now current.expires_at then (l, none) else (
      record { held = Map.set key (record { token = token; expires_at = now + ttl }) l.held },
      some token,
    )

unfoldable pub acquire : ℕ → String → String → ℕ → MemoryLock → MemoryLock × Option String
unfolding acquire_found
acquire now token key ttl l = acquire_found now token key ttl (Map.get key l.held) l

unfoldable pub release_found : String → String → Option Holding → MemoryLock → MemoryLock
release_found key token none l = l
release_found key token (some current) l =
    if current.token === token then record { held = Map.delete key l.held } else l

unfoldable pub release : String → String → MemoryLock → MemoryLock
unfolding release_found
release key token l = release_found key token (Map.get key l.held) l

-- A call by any holder: its time, its fresh token, its key and the lifetime it asks for; or a key and
-- a token.
pub data LockCall : Type 0 where
  acquires : ℕ → String → String → ℕ → LockCall
  releases : String → String → LockCall

abbrev pub run_call : LockCall → MemoryLock → MemoryLock
run_call (LockCall.acquires now token key ttl) l = (acquire now token key ttl l).0
run_call (LockCall.releases key token) l = release key token l

unfoldable pub run : List LockCall → MemoryLock → MemoryLock
run [] l = l
run (call ∷ calls) l = run calls (run_call call l)
