-- ===== src/Core/StateStore.antt =====
-- packages/core/src/StateStore.ts: `MemoryStateStore`. The clock's reading is an argument; the sweep
-- timer calls `purge` at times of its own.
pub mod Expiry
use text.Mathlib.Text.{starts_with}
use rtcforge.Map
use rtcforge.Map.{Map}
use rtcforge.Prelude.{
  ℕ, ◌+◌, Bool, true, false, not, List, [], ◌∷◌, Option, none, some, String, leb, if◌then◌else◌,
  text_key,
}

-- `expiresAt <= now`, which never holds of an entry without a lifetime.
abbrev pub is_expired : ℕ → Option ℕ → Bool
is_expired now none = false
is_expired now (some expires_at) = leb expires_at now

pub record Entry (V : Type 0) : Type 0 where
  pub value : V
  pub expires_at : Option ℕ

pub record MemoryStateStore (V : Type 0) : Type 0 where
  pub entries : Map String (Entry V)

abbrev pub deadline : ℕ → Option ℕ → Option ℕ
deadline now none = none
deadline now (some ttl) = some (now + ttl)

abbrev pub matches : Option String → String → Bool
matches none key = true
matches (some prefix) key = starts_with key prefix

module _ {V : Type 0} where
  unfoldable pub live_found :
      ℕ → String → Option (Entry V) → MemoryStateStore V → MemoryStateStore V × Option (Entry V)
  live_found now key none s = (s, none)
  live_found now key (some e) s =
      if is_expired now e.expires_at
      then (record { entries = Map.delete key s.entries }, none)
      else (s, some e)

  -- `_live`
  unfoldable pub live : ℕ → String → MemoryStateStore V → MemoryStateStore V × Option (Entry V)
  unfolding live_found
  live now key s = live_found now key (Map.get key s.entries) s

  abbrev pub value_of : Option (Entry V) → Option V
  value_of none = none
  value_of (some e) = some e.value

  unfoldable pub get : ℕ → String → MemoryStateStore V → MemoryStateStore V × Option V
  unfolding live
  get now key s = let (s', found) = live now key s in (s', value_of found)

  unfoldable pub set : ℕ → String → V → Option ℕ → MemoryStateStore V → MemoryStateStore V
  set now key value ttl s = record {
    entries = Map.set key (record { value = value; expires_at = deadline now ttl }) s.entries;
  }

  unfoldable pub delete : String → MemoryStateStore V → MemoryStateStore V
  delete key s = record { entries = Map.delete key s.entries }

  abbrev pub is_found : Option (Entry V) → Bool
  is_found none = false
  is_found (some e) = true

  unfoldable pub has : ℕ → String → MemoryStateStore V → MemoryStateStore V × Bool
  unfolding live
  has now key s = let (s', found) = live now key s in (s', is_found found)

  -- The loop of `keys` over the map's keys.
  unfoldable pub keys_loop :
      ℕ → Option String → List String → MemoryStateStore V → MemoryStateStore V × List String
  unfolding live
  keys_loop now prefix [] s = (s, [])
  keys_loop now prefix (key ∷ rest) s =
      let (s', found) = live now key s in
      let (kept, out) = keys_loop now prefix rest s' in
      let skipped = keys_loop now prefix rest s in
      if not (matches prefix key)
      then skipped
      else (kept, if is_found found then key ∷ out else out)

  unfoldable pub keys : ℕ → Option String → MemoryStateStore V → MemoryStateStore V × List String
  unfolding keys_loop
  keys now prefix s = keys_loop now prefix (Map.keys s.entries) s

  -- The loop of `_purge` over the map's entries.
  unfoldable pub purge_loop : ℕ → Map String (Entry V) → MemoryStateStore V → MemoryStateStore V
  purge_loop now [] s = s
  purge_loop now ((key, e) ∷ rest) s =
      let deleted = purge_loop now rest (record { entries = Map.delete key s.entries }) in
      let kept = purge_loop now rest s in if is_expired now e.expires_at then deleted else kept

  unfoldable pub purge : ℕ → MemoryStateStore V → MemoryStateStore V
  unfolding purge_loop
  purge now s = purge_loop now s.entries s
