-- ===== src/Tests/Signaling.antt =====
-- The rate limiter at two events per 10 ms.
use rtcforge.Prelude.{ℕ, false, List, [], ◌∷◌, ◌≡◌, refl, arith}
use rtcforge.Signaling.RateLimiter.{RateLimiter, allow, allow_all}
use rtcforge.Signaling.RateLimiter.Window.{IsSpaced, IsOrdered, allow_all_window}

abbrev times : List ℕ
times = 1 ∷ 2 ∷ 3 ∷ 12 ∷ []

times-IsOrdered : IsOrdered 0 times
times-IsOrdered = (omega arith, (omega arith, (omega arith, (omega arith, tt))))

allow_all_window_example :
    IsSpaced 2 10 (allow_all times (record { hits = []; max_per_window = 2; window_ms = 10 }) []).1
allow_all_window_example = allow_all_window 2 10 times times-IsOrdered

abbrev full : RateLimiter
full = record { hits = 1 ∷ 2 ∷ []; max_per_window = 2; window_ms = 10 }

full_refuses : (allow 3 full).1 ≡ false
unfolding allow
full_refuses = refl
