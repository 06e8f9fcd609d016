-- ===== src/Core/Lock/Exclusion.antt =====
-- Mutual exclusion: a holding stands until it expires or its own token releases it.
use rtcforge.Map
use rtcforge.Map.{Map, Distinct, keys}
use rtcforge.Map.Laws.{get-set_self, get-set_ne, get-delete_self, get-delete_ne}
use rtcforge.Prelude.{
  ℕ, ◌+◌, ◌≤◌, ◌<◌, false, List, [], ◌∷◌, Option, none, some, String, ◌≡◌, ◌≢◌, refl, sym, ap, ◌∙◌,
  ◌⊎◌, inl, inr, arith, ltb, ◌===◌, text_key, All, Bool-cases, eq_of_same, ne_of_same, same_of_eq,
  same_of_ne, subst,
}
use rtcforge.Core.Lock.{
  Holding, MemoryLock, LockCall, acquire, acquire_found, release, release_found, run_call, run,
}

-- A call that does not end the holding `h` of `key`: an acquisition before it expires, a release with
-- another token, or a call about another key.
abbrev pub Leaves : String → Holding → LockCall → Type 0
Leaves key h (LockCall.acquires now token other ttl) = (other ≢ key) ⊎ (now < h.expires_at)
Leaves key h (LockCall.releases other token) = (other ≢ key) ⊎ (token ≢ h.token)

acquire_elsewhere :
    (now : ℕ) (token other key : String) (ttl : ℕ) (o : Option Holding) (l : MemoryLock)
    → other ≢ key
    → Map.get key (acquire_found now token other ttl o l).0.held ≡ Map.get key l.held
unfolding acquire_found
acquire_elsewhere now token other key ttl none l ne = get-set_ne other key _ l.held ne
acquire_elsewhere now token other key ttl (some h) l ne = elim (Bool-cases (ltb now h.expires_at)) [
  | inl early ↦ rw early
  | inr late ↦ rw late (get-set_ne other key _ l.held ne)
]

release_elsewhere :
    (other key token : String) (o : Option Holding) (l : MemoryLock)
    → other ≢ key
    → Map.get key (release_found other token o l).held ≡ Map.get key l.held
unfolding release_found
release_elsewhere other key token none l ne = refl
release_elsewhere other key token (some h) l ne = elim (Bool-cases (h.token === token)) [
  | inl own ↦ rw own (get-delete_ne other key l.held ne)
  | inr foreign ↦ rw foreign
]

acquire-early :
    (now : ℕ) (token key : String) (ttl : ℕ) (h : Holding) (l : MemoryLock)
    → Map.get key l.held ≡ some h
    → now < h.expires_at
    → acquire now token key ttl l ≡ (l, none)
unfolding acquire acquire_found
acquire-early now token key ttl h l found early = ground arith

release-foreign :
    (key token : String) (h : Holding) (l : MemoryLock)
    → Map.get key l.held ≡ some h
    → token ≢ h.token
    → release key token l ≡ l
unfolding release release_found
release-foreign key token h l found foreign =
    let differ = same_of_ne h.token token (λ e. foreign (sym e)) in ground arith

run_call-Leaves :
    (key : String) (h : Holding) (call : LockCall) (l : MemoryLock)
    → Leaves key h call
    → Map.get key l.held ≡ some h
    → Map.get key (run_call call l).held ≡ some h
unfolding acquire release
run_call-Leaves key h (LockCall.acquires now token other ttl) l (inl ne) found =
    acquire_elsewhere now token other key ttl (Map.get other l.held) l ne ∙ found
run_call-Leaves key h (LockCall.acquires now token other ttl) l (inr early) found =
    elim (Bool-cases (other === key)) [
      | inl same ↦
          let here = sym (eq_of_same other key same) in
          subst (λ k. Map.get key (acquire now token k ttl l).0.held ≡ some h) here
            (ap (λ r. Map.get key r.0.held) (acquire-early now token key ttl h l found early)
              ∙ found)
      | inr differs ↦
          acquire_elsewhere now token other key ttl (Map.get other l.held) l
            (ne_of_same other key differs)
          ∙ found
    ]
run_call-Leaves key h (LockCall.releases other token) l (inl ne) found =
    release_elsewhere other key token (Map.get other l.held) l ne ∙ found
run_call-Leaves key h (LockCall.releases other token) l (inr foreign) found =
    elim (Bool-cases (other === key)) [
      | inl same ↦
          let here = sym (eq_of_same other key same) in
          subst (λ k. Map.get key (release k token l).held ≡ some h) here
            (ap (λ r. Map.get key r.held) (release-foreign key token h l found foreign) ∙ found)
      | inr differs ↦
          release_elsewhere other key token (Map.get other l.held) l (ne_of_same other key differs)
          ∙ found
    ]

run-Leaves :
    (key : String) (h : Holding) (calls : List LockCall) (l : MemoryLock)
    → All (Leaves key h) calls
    → Map.get key l.held ≡ some h
    → Map.get key (run calls l).held ≡ some h
unfolding run
run-Leaves key h [] l quiet found = found
run-Leaves key h (call ∷ calls) l (here, quiet) found =
    run-Leaves key h calls (run_call call l) quiet (run_call-Leaves key h call l here found)

-- The lock excludes: as long as a holding has not expired and its own token has not released it,
-- whatever else is acquired and released, nobody acquires its key.
pub acquire_excludes :
    (key : String) (h : Holding) (calls : List LockCall) (l : MemoryLock) (now : ℕ) (token : String)
    (ttl : ℕ)
    → Map.get key l.held ≡ some h
    → All (Leaves key h) calls
    → now < h.expires_at
    → acquire now token key ttl (run calls l) ≡ (run calls l, none)
acquire_excludes key h calls l now token ttl found quiet early =
    acquire-early now token key ttl h (run calls l) (run-Leaves key h calls l quiet found) early

-- An acquisition of a free key, or of one whose holding has expired, succeeds, and the new holding
-- carries its token and lasts for its lifetime.
pub acquire_free :
    (now : ℕ) (token key : String) (ttl : ℕ) (l : MemoryLock)
    → (Map.get key l.held ≡ none)
      ⊎ ((h : Holding) × (Map.get key l.held ≡ some h) × (h.expires_at ≤ now))
    → ((acquire now token key ttl l).1 ≡ some token)
      × (Map.get key (acquire now token key ttl l).0.held
          ≡ some (record { token = token; expires_at = now + ttl }))
unfolding acquire acquire_found
acquire_free now token key ttl l (inl free) =
    rw free (refl, get-set_self key (record { token = token; expires_at = now + ttl }) l.held)
acquire_free now token key ttl l (inr (h, found, late)) =
    let expired : ltb now h.expires_at ≡ false = ground arith in
    rw (found, expired)
      (refl, get-set_self key (record { token = token; expires_at = now + ttl }) l.held)

-- A release by the holder's token frees the key; one by another token changes nothing.
pub release_lem :
    (key token : String) (h : Holding) (l : MemoryLock)
    → Distinct (keys l.held)
    → Map.get key l.held ≡ some h
    → (token ≡ h.token → Map.get key (release key token l).held ≡ none)
      × (token ≢ h.token → release key token l ≡ l)
unfolding release release_found
release_lem key token h l d found = (
  λ own.
      let same = same_of_eq h.token token (sym own) in
      rw (found, same) (get-delete_self key l.held d),
  λ foreign. release-foreign key token h l found foreign,
)
