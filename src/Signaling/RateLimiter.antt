-- ===== src/Signaling/RateLimiter.antt =====
-- packages/signaling/src/RateLimiter.ts: at most `max_per_window` events in any rolling window.
-- The clock's reading is an argument. `hit <= now - window` is written `hit + window <= now`.
pub mod Window
use rtcforge.Prelude.{ℕ, ◌+◌, Bool, true, false, List, [], ◌∷◌, ◌++◌, leb, if◌then◌else◌, length}

pub record RateLimiter : Type 0 where
  pub hits : List ℕ
  pub max_per_window : ℕ
  pub window_ms : ℕ

-- The loop that counts the expired hits, and the `splice` that drops them.
pub drop_expired : ℕ → ℕ → List ℕ → List ℕ
drop_expired window now [] = []
drop_expired window now (hit ∷ hits) =
    if leb (hit + window) now then drop_expired window now hits else hit ∷ hits

unfoldable pub allow : ℕ → RateLimiter → RateLimiter × Bool
unfolding drop_expired
allow now l =
    let live = drop_expired l.window_ms now l.hits in
    if leb l.max_per_window (length live)
    then (record l { hits = live }, false)
    else (record l { hits = live ++ (now ∷ []) }, true)

-- A series of calls, and the times at which an event was allowed.
pub allow_all : List ℕ → RateLimiter → List ℕ → RateLimiter × List ℕ
unfolding allow
allow_all [] l log = (l, log)
allow_all (now ∷ times) l log =
    let (l', ok) = allow now l in allow_all times l' (if ok then log ++ (now ∷ []) else log)
