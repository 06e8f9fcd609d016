-- ===== src/Core/Gossip/Sweep.antt =====
-- What `_sweep` makes of each member.
use rtcforge.Map
use rtcforge.Map.{Map, Distinct, keys, contains}
use rtcforge.Map.Laws.{contains-keys, get-eq-none_of_not_has}
use rtcforge.Prelude.{
  ℕ, ◌+◌, ◌≤◌, true, false, [], ◌∷◌, Option, none, some, String, ◌≡◌, ◌≢◌, ◌⊎◌, ◌↔◌, refl, sym, ap,
  subst, ◌∙◌, inl, inr, arith, ◌===◌, text_key, Bool-cases, eq_of_same, same_of_ne,
}
use rtcforge.Core.Gossip.Entries.{MemberRecord, add_one}
use rtcforge.Core.Gossip.{Gossip, Verdict, keep, die, forget, verdict, swept, sweep}

-- The record that a sweep leaves of a member.
abbrev judged : MemberRecord → Verdict → Option MemberRecord
judged rec keep = some rec
judged rec die = some (record rec { alive = false; incarnation = add_one rec.incarnation })
judged rec forget = none

Verdict-cases : (v : Verdict) → (v ≡ keep) ⊎ (v ≡ die) ⊎ (v ≡ forget)
Verdict-cases keep = inl refl
Verdict-cases die = inr (inl refl)
Verdict-cases forget = inr (inr refl)

get_of_fresh :
    (id : String) (m : Map String MemberRecord) → contains id (keys m) ≡ false → Map.get id m ≡ none
get_of_fresh id m fresh = get-eq-none_of_not_has id m (sym (contains-keys id m) ∙ fresh)

module _ (self : String) (now dead_ms tombstone_ms : ℕ) (id : String) where
  abbrev fate : Option MemberRecord → Option MemberRecord
  fate none = none
  fate (some rec) = judged rec (verdict self now dead_ms tombstone_ms id rec)

  get-swept :
      (m : Map String MemberRecord)
      → Distinct (keys m)
      → Map.get id (swept self now dead_ms tombstone_ms m) ≡ fate (Map.get id m)
  unfolding swept Map.get
  get-swept [] d = refl
  get-swept ((i, rec) ∷ m) (fresh, d) =
      let ih = get-swept m d in
      elim (Bool-cases (i === id)) [
        | inl same ↦
            let here = eq_of_same i id same in
            let later = get_of_fresh id m (ap (λ j. contains j (keys m)) (sym here) ∙ fresh) in
            let gone = ih ∙ ap fate later in
            let ids = ap (λ j. verdict self now dead_ms tombstone_ms j rec) here in
            elim (Verdict-cases (verdict self now dead_ms tombstone_ms i rec)) [
              | inl kept ↦ rw (kept, swept, same, sym ids ∙ kept)
              | inr (inl died) ↦ rw (died, swept, same, sym ids ∙ died)
              | inr (inr forgotten) ↦ rw (forgotten, swept, same, sym ids ∙ forgotten) gone
            ]
        | inr other ↦ elim (Verdict-cases (verdict self now dead_ms tombstone_ms i rec)) [
          | inl kept ↦ rw (kept, swept, other) ih
          | inr (inl died) ↦ rw (died, swept, other) ih
          | inr (inr forgotten) ↦ rw (forgotten, swept, other) ih
        ]
      ]

  fate_alive :
      (o : Option MemberRecord) (rec : MemberRecord)
      → (id === self) ≡ false
      → ((fate o ≡ some rec) × (rec.alive ≡ true))
        ↔ ((o ≡ some rec) × (rec.alive ≡ true) × (now ≤ rec.last_seen + dead_ms))
  unfolding verdict
  fate_alive none rec away = ground arith
  fate_alive (some r) rec away = ground arith

-- A sweep leaves alive exactly the other members that were alive and that it has heard of within
-- the timeout, each with its record unchanged.
pub sweep-alive :
    (now : ℕ) (id : String) (rec : MemberRecord) (g : Gossip)
    → Distinct (keys g.members)
    → id ≢ g.self_info.id
    → ((Map.get id (sweep now g).members ≡ some rec) × (rec.alive ≡ true))
      ↔ ((Map.get id g.members ≡ some rec) × (rec.alive ≡ true) × (now ≤ rec.last_seen + g.dead_ms))
unfolding sweep
sweep-alive now id rec g d other =
    let seen = get-swept g.self_info.id now g.dead_ms g.tombstone_ms id g.members d in
    let away = same_of_ne id g.self_info.id other in
    let held : (sweep now g).members ≡ swept g.self_info.id now g.dead_ms g.tombstone_ms g.members =
      ground arith in
    subst
      (λ o. ((o ≡ some rec) × (rec.alive ≡ true)) ↔ (
        (Map.get id g.members ≡ some rec) × (rec.alive ≡ true) × (now ≤ rec.last_seen + g.dead_ms)))
      (sym (ap (Map.get id) held ∙ seen))
      (fate_alive g.self_info.id now g.dead_ms g.tombstone_ms id (Map.get id g.members) rec away)
