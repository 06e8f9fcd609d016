-- ===== src/Sdk/ReconnectStrategy.antt =====
-- packages/sdk/src/ReconnectStrategy.ts: exponential backoff with jitter.
-- `Math.random()` is the fraction `num / den`, an argument with `num < den`. A delay is counted in
-- units of 1 / (10 * den) milliseconds, which makes `base + base * 0.3 * random` a whole number.
use native.Mathlib.Nat.{pow-suc}
use native.Mathlib.Numerals.{towards_suc}
use rtcforge.Prelude.{
  ℕ, zero, suc, ◌+◌, ◌*◌, ◌^◌, ◌≤◌, ◌<◌, min, Bool, false, Option, none, some, ◌≡◌, refl, ap, arith,
  leb,
}

pub record ReconnectStrategy : Type 0 where
  pub attempt : ℕ
  pub max_delay_ms : ℕ
  pub max_attempts : Option ℕ

unfoldable pub reset : ReconnectStrategy → ReconnectStrategy
reset s = record s { attempt = 0 }

abbrev pub exhausted : Option ℕ → ℕ → Bool
exhausted none attempt = false
exhausted (some most) attempt = leb most attempt

unfoldable pub is_exhausted : ReconnectStrategy → Bool
is_exhausted s = exhausted s.max_attempts s.attempt

-- The delay before jitter, in milliseconds.
unfoldable pub base_delay : ReconnectStrategy → ℕ
base_delay s = min (1000 * 2 ^ s.attempt) s.max_delay_ms

-- The new state, and the delay in units of 1 / (10 * den) milliseconds.
unfoldable pub next_delay : ℕ → ℕ → ReconnectStrategy → ReconnectStrategy × ℕ
unfolding base_delay
next_delay num den s =
    let base = base_delay s in
    (record s { attempt = s.attempt + 1 }, 10 * den * base + 3 * num * base)

mul-lt : (a b c : ℕ) → a < b → 0 < c → a * c < b * c
mul-lt a b c h p = grind arith

base_delay-le : (s : ReconnectStrategy) → base_delay s ≤ s.max_delay_ms
unfolding base_delay
base_delay-le s = omega arith

-- The jittered delay is at least the base and less than 1.3 times it, and the base never exceeds the
-- ceiling; each call counts one attempt and changes nothing else.
pub next_delay_bounds :
    (num den : ℕ) (s : ReconnectStrategy)
    → num < den
    → 0 < base_delay s
    → (10 * den * base_delay s ≤ (next_delay num den s).1)
      × ((next_delay num den s).1 < 13 * den * base_delay s)
      × (base_delay s ≤ s.max_delay_ms)
      × ((next_delay num den s).0 ≡ record s { attempt = s.attempt + 1 })
unfolding next_delay
next_delay_bounds num den s h p =
    let less = mul-lt num den (base_delay s) h p in
    (omega arith, omega arith, base_delay-le s, refl)

pow-double : (n : ℕ) → 2 ^ (n + 1) ≡ 2 * 2 ^ n
pow-double n = simp towards_suc (omega (arith, pow-suc 2 n))

-- The base of the next delay is twice the current one, or the ceiling if that is lower.
pub base_delay_doubles :
    (num den : ℕ) (s : ReconnectStrategy)
    → base_delay (next_delay num den s).0 ≡ min (2 * base_delay s) s.max_delay_ms
unfolding next_delay base_delay
base_delay_doubles num den s = omega (arith, pow-double s.attempt)

-- The strategy after `n` delays.
pub delays : ℕ → ℕ → ℕ → ReconnectStrategy → ReconnectStrategy
unfolding next_delay
delays zero num den s = s
delays (suc n) num den s = delays n num den (next_delay num den s).0

attempt-delays :
    (n num den : ℕ) (s : ReconnectStrategy)
    → ((delays n num den s).attempt ≡ s.attempt + n)
      × ((delays n num den s).max_attempts ≡ s.max_attempts)
unfolding delays
attempt-delays zero num den s = (omega arith, refl)
attempt-delays (suc n) num den s =
    let ih = attempt-delays n num den (next_delay num den s).0 in (omega arith, ih.1)

-- After a reset the strategy is exhausted exactly once `n` delays have used up the configured limit,
-- and never if there is none.
pub is_exhausted-delays :
    (n num den : ℕ) (s : ReconnectStrategy)
    → is_exhausted (delays n num den (reset s)) ≡ exhausted s.max_attempts n
unfolding is_exhausted reset
is_exhausted-delays n num den s =
    let (count, most) = attempt-delays n num den (reset s) in
    rw (count, most) (ap (exhausted s.max_attempts) (omega arith))
