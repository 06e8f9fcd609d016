-- ===== src/Core/Gossip/Self.antt =====
-- A node's belief about itself: while it runs it stays alive, whatever the others claim.
use rtcforge.Map
use rtcforge.Map.{Map}
use rtcforge.Map.Laws.{get-set_self, get-set_ne}
use rtcforge.Prelude.{
  ℕ, ◌+◌, ◌≤◌, ◌<◌, Bool, true, false, not, ◌&&◌, ◌||◌, List, [], ◌∷◌, Option, none, some, String,
  ◌≡◌, ◌≢◌, refl, sym, ap, subst, ◌∙◌, inl, inr, arith, ◌===◌, ◌==◌, ltb, text_key, Bool-cases,
  Option-cases, ne_of_same, same_of_eq, same_of_ne,
}
use rtcforge.Core.Gossip.Entries.{
  NodeInfo, GossipEntry, MemberRecord, RawEntry, add_one, add_one-ge, add_one_exact, add_one_stuck,
  valid_entry,
}
use rtcforge.Core.Gossip.{
  Gossip, keep, verdict, swept, sweep, update_self, notify, gossip, start, register, deregister,
  deregister_found, must_refute, list, tick, timer_fired, merge_self, merge_other, merge_valid,
  merge, merge_all, on_receive, is_some, entry_info,
}

-- The node knows itself alive, at an incarnation that is at least `n`.
abbrev pub IsUp : ℕ → Gossip → Type 0
IsUp n g =
    (r : MemberRecord) × (Map.get g.self_info.id g.members ≡ some r)
    × (r.alive ≡ true)
    × (n ≤ r.incarnation)

-- The operation leaves the identity and the node's own record alone.
pub record KeepsSelf (g g' : Gossip) : Type 0 where
  pub same_self_info : g'.self_info ≡ g.self_info
  pub same_record : Map.get g.self_info.id g'.members ≡ Map.get g.self_info.id g.members

KeepsSelf-IsUp : {n : ℕ} {g g' : Gossip} → KeepsSelf g g' → IsUp n g → IsUp n g'
KeepsSelf-IsUp {n} {g} {g'} k (r, found, up, least) =
    (r, ap (λ info. Map.get info.id g'.members) k.same_self_info ∙ k.same_record ∙ found, up, least)

notify-KeepsSelf : (g : Gossip) → KeepsSelf g (notify g)
unfolding notify
notify-KeepsSelf g = record { same_self_info = refl; same_record = refl }

gossip-KeepsSelf : (random : ℕ → ℕ → ℕ) (g : Gossip) → KeepsSelf g (gossip random g)
unfolding gossip
gossip-KeepsSelf random g = record { same_self_info = refl; same_record = refl }

verdict_own :
    (self : String) (now dead tombstone : ℕ) (id : String) (rec : MemberRecord)
    → (id === self) ≡ true
    → verdict self now dead tombstone id rec ≡ keep
unfolding verdict
verdict_own self now dead tombstone id rec own = rw own

get-swept :
    (self : String) (now dead tombstone : ℕ) (m : Map String MemberRecord)
    → Map.get self (swept self now dead tombstone m) ≡ Map.get self m
unfolding Map.get swept
get-swept self now dead tombstone [] = refl
get-swept self now dead tombstone ((id, rec) ∷ m) =
    let ih = get-swept self now dead tombstone m in
    elim (Bool-cases (id === self)) [
      | inl own ↦ rw (verdict_own self now dead tombstone id rec own, swept) (rw own)
      | inr other ↦ ground (arith, ih)
    ]

sweep-KeepsSelf : (now : ℕ) (g : Gossip) → KeepsSelf g (sweep now g)
unfolding sweep
sweep-KeepsSelf now g =
    ground (arith, get-swept g.self_info.id now g.dead_ms g.tombstone_ms g.members)

update_self_found :
    (f : MemberRecord → MemberRecord) (r : MemberRecord) (g : Gossip)
    → Map.get g.self_info.id g.members ≡ some r
    → update_self f g ≡ record g { members = Map.set g.self_info.id (f r) g.members }
unfolding update_self
update_self_found f r g found = rw (found, update_self)

update_self-IsUp :
    (f : MemberRecord → MemberRecord) (n : ℕ) (g : Gossip)
    → ((r : MemberRecord) → r.alive ≡ true → (f r).alive ≡ true)
    → ((r : MemberRecord) → r.incarnation ≤ (f r).incarnation)
    → IsUp n g
    → IsUp n (update_self f g)
update_self-IsUp f n g alive grows (r, found, up, least) =
    subst (IsUp n) (sym (update_self_found f r g found))
      (f r, get-set_self g.self_info.id (f r) g.members, alive r up, omega (arith, grows r))

then_notify : {n : ℕ} (g : Gossip) → IsUp n g → IsUp n (notify g)
then_notify g up = KeepsSelf-IsUp (notify-KeepsSelf g) up

then_gossip : {n : ℕ} (random : ℕ → ℕ → ℕ) (g : Gossip) → IsUp n g → IsUp n (gossip random g)
then_gossip random g up = KeepsSelf-IsUp (gossip-KeepsSelf random g) up

abbrev revive : ℕ → MemberRecord → MemberRecord
revive now rec = record rec { alive = true; incarnation = add_one rec.incarnation; last_seen = now }

abbrev rename_self : ℕ → NodeInfo → MemberRecord → MemberRecord
rename_self now node rec = record rec {
  info = node;
  alive = true;
  incarnation = add_one rec.incarnation;
  last_seen = now;
}

abbrev beat : ℕ → MemberRecord → MemberRecord
beat now rec = record rec { incarnation = add_one rec.incarnation; last_seen = now }

start-IsUp : (n now : ℕ) (g : Gossip) → IsUp n g → IsUp n (start now g)
unfolding start
start-IsUp n now g up =
    let on : Gossip = record g { running = true } in
    let up' : IsUp n (update_self (revive now) on) =
      update_self-IsUp (revive now) n on (λ r e. refl) (λ r. add_one-ge r.incarnation) up in
    let told = then_notify (update_self (revive now) on) up' in
    elim (Bool-cases g.running) [
      | inl running ↦ rw (running, start) up
      | inr stopped ↦ elim (Bool-cases (is_some (Map.get g.self_info.id g.members))) [
        | inl known ↦ rw (stopped, known, start) told
        | inr unknown ↦ rw (stopped, unknown, start) up'
      ]
    ]

register-IsUp :
    (random : ℕ → ℕ → ℕ) (n now : ℕ) (node : NodeInfo) (g : Gossip)
    → IsUp n g
    → IsUp n (register random now node g)
unfolding register
register-IsUp random n now node g up =
    let renamed = update_self (rename_self now node) g in
    let up' : IsUp n (gossip random (notify renamed)) = then_gossip random (notify renamed) (
      then_notify renamed (
        update_self-IsUp (rename_self now node) n g (λ r e. refl) (λ r. add_one-ge r.incarnation)
          up)) in
    elim (Bool-cases (node.id === g.self_info.id)) [
      | inl own ↦ rw own up'
      | inr other ↦ rw other up
    ]

deregister_found-IsUp :
    (random : ℕ → ℕ → ℕ) (n : ℕ) (id : String) (o : Option MemberRecord) (g : Gossip)
    → id ≢ g.self_info.id
    → IsUp n g
    → IsUp n (deregister_found random id o g)
unfolding deregister_found
deregister_found-IsUp random n id none g other up = up
deregister_found-IsUp random n id (some rec) g other (r, found, up, least) =
    let gone : MemberRecord = record rec { alive = false; incarnation = add_one rec.incarnation } in
    let down : Gossip = record g { members = Map.set id gone g.members } in
    let up' : IsUp n (gossip random (notify down)) = then_gossip random (notify down) (
      then_notify down (r, get-set_ne id g.self_info.id gone g.members other ∙ found, up, least)) in
    elim (Bool-cases rec.alive) [
      | inl live ↦ rw live up'
      | inr dead ↦ rw dead (r, found, up, least)
    ]

sweep-IsUp : {n : ℕ} (now : ℕ) (g : Gossip) → IsUp n g → IsUp n (sweep now g)
sweep-IsUp now g up = KeepsSelf-IsUp (sweep-KeepsSelf now g) up

tick-IsUp : (random : ℕ → ℕ → ℕ) (n now : ℕ) (g : Gossip) → IsUp n g → IsUp n (tick random now g)
unfolding tick
tick-IsUp random n now g up =
    let beaten = update_self (beat now) g in
    then_gossip random (sweep now beaten) (
      sweep-IsUp now beaten
        (update_self-IsUp (beat now) n g (λ r e. e) (λ r. add_one-ge r.incarnation) up))

timer_fired_on :
    (random : ℕ → ℕ → ℕ) (now : ℕ) (g : Gossip)
    → g.running ≡ true
    → timer_fired random now g ≡ tick random now g
unfolding timer_fired
timer_fired_on random now g on = rw on

timer_fired_off :
    (random : ℕ → ℕ → ℕ) (now : ℕ) (g : Gossip) → g.running ≡ false → timer_fired random now g ≡ g
unfolding timer_fired
timer_fired_off random now g off = rw off

timer_fired-IsUp :
    (random : ℕ → ℕ → ℕ) (n now : ℕ) (g : Gossip) → IsUp n g → IsUp n (timer_fired random now g)
timer_fired-IsUp random n now g up = elim (Bool-cases g.running) [
  | inl on ↦ subst (IsUp n) (sym (timer_fired_on random now g on)) (tick-IsUp random n now g up)
  | inr off ↦ subst (IsUp n) (sym (timer_fired_off random now g off)) up
]

must_refute_least :
    (e : GossipEntry) (rec : MemberRecord)
    → must_refute e rec ≡ true
    → rec.incarnation ≤ e.incarnation
unfolding must_refute
must_refute_least e rec refute = ground arith

merge_self-IsUp :
    (n now : ℕ) (e : GossipEntry) (o : Option MemberRecord) (g : Gossip)
    → Map.get g.self_info.id g.members ≡ o
    → IsUp n g
    → IsUp n (merge_self now e o g)
unfolding merge_self
merge_self-IsUp n now e none g found up = up
merge_self-IsUp n now e (some rec) g found (r, found', up, least) =
    let same : some rec ≡ some r = sym found ∙ found' in
    let bound : n ≤ rec.incarnation = ground arith in
    let louder : MemberRecord = record rec {
      incarnation = add_one e.incarnation;
      alive = true;
      last_seen = now;
    } in
    elim (Bool-cases (must_refute e rec)) [
      | inl refute ↦
          let enough : n ≤ add_one e.incarnation =
            omega (arith, must_refute_least e rec refute, add_one-ge e.incarnation) in
          rw refute (louder, get-set_self g.self_info.id louder g.members, refl, enough)
      | inr fine ↦ rw fine (r, found', up, least)
    ]

abbrev heard : ℕ → GossipEntry → MemberRecord
heard now e = record {
  info = entry_info e;
  address = e.address;
  incarnation = e.incarnation;
  alive = e.alive;
  last_seen = now;
}

merge_other-IsUp :
    (n now : ℕ) (e : GossipEntry) (o : Option MemberRecord) (g : Gossip)
    → e.id ≢ g.self_info.id
    → IsUp n g
    → IsUp n (merge_other now e o g).0
unfolding merge_other
merge_other-IsUp n now e none g other (r, found, up, least) =
    (r, get-set_ne e.id g.self_info.id (heard now e) g.members other ∙ found, up, least)
merge_other-IsUp n now e (some known) g other (r, found, up, least) =
    let buried : MemberRecord = record known { alive = false; last_seen = now } in
    let new = get-set_ne e.id g.self_info.id (heard now e) g.members other ∙ found in
    let dead = get-set_ne e.id g.self_info.id buried g.members other ∙ found in
    elim (Bool-cases (e.incarnation == known.incarnation && not e.alive && known.alive)) [
      | inl died ↦ rw died (r, dead, up, least)
      | inr same ↦ elim (Bool-cases (ltb known.incarnation e.incarnation)) [
        | inl newer ↦ rw (same, newer) (r, new, up, least)
        | inr older ↦ rw (same, older) (r, found, up, least)
      ]
    ]

merge_valid-IsUp :
    (n now : ℕ) (e : GossipEntry) (g : Gossip) → IsUp n g → IsUp n (merge_valid now e g).0
unfolding merge_valid
merge_valid-IsUp n now e g up =
    let mine = merge_self-IsUp n now e (Map.get g.self_info.id g.members) g refl up in
    elim (Bool-cases (e.id === g.self_info.id)) [
      | inl own ↦ rw own mine
      | inr other ↦ rw other (
          merge_other-IsUp n now e (Map.get e.id g.members) g (ne_of_same e.id g.self_info.id other)
            up)
    ]

merge-IsUp : (n now : ℕ) (raw : RawEntry) (g : Gossip) → IsUp n g → IsUp n (merge now raw g).0
unfolding merge
merge-IsUp n now raw g up = elim (Option-cases (valid_entry raw)) [
  | inl bad ↦ rw bad up
  | inr (e, good) ↦ rw good (merge_valid-IsUp n now e g up)
]

merge_all-IsUp :
    (n now : ℕ) (raws : List RawEntry) (g : Gossip) (changed : Bool)
    → IsUp n g
    → IsUp n (merge_all now raws g changed).0
unfolding merge_all
merge_all-IsUp n now [] g changed up = up
merge_all-IsUp n now (raw ∷ raws) g changed up =
    merge_all-IsUp n now raws (merge now raw g).0 ((merge now raw g).1 || changed)
      (merge-IsUp n now raw g up)

on_receive-IsUp :
    (n now : ℕ) (o : Option (List RawEntry)) (g : Gossip) → IsUp n g → IsUp n (on_receive now o g)
unfolding on_receive
on_receive-IsUp n now none g up = up
on_receive-IsUp n now (some raws) g up =
    let merged = merge_all-IsUp n now raws g false up in
    let told = then_notify (merge_all now raws g false).0 merged in
    elim (Bool-cases (merge_all now raws g false).1) [
      | inl changed ↦ rw changed told
      | inr same ↦ rw same merged
    ]

list-IsUp : (n now : ℕ) (g : Gossip) → IsUp n g → IsUp n (list now g).0
unfolding list
list-IsUp n now g up = sweep-IsUp now g up

deregister-IsUp :
    (random : ℕ → ℕ → ℕ) (n : ℕ) (id : String) (g : Gossip)
    → id ≢ g.self_info.id
    → IsUp n g
    → IsUp n (deregister random id g)
unfolding deregister
deregister-IsUp random n id g other up =
    deregister_found-IsUp random n id (Map.get id g.members) g other up

-- One step of a node that is neither stopped nor deregistered by its own process.
pub data Step : Gossip → Gossip → Type 0 where
  starts : (now : ℕ) {g : Gossip} → Step g (start now g)
  registers :
      (random : ℕ → ℕ → ℕ) (now : ℕ) (node : NodeInfo) {g : Gossip}
      → Step g (register random now node g)
  deregisters :
      (random : ℕ → ℕ → ℕ) (id : String) {g : Gossip}
      → id ≢ g.self_info.id
      → Step g (deregister random id g)
  ticks : (random : ℕ → ℕ → ℕ) (now : ℕ) {g : Gossip} → Step g (timer_fired random now g)
  lists : (now : ℕ) {g : Gossip} → Step g (list now g).0
  receives : (now : ℕ) (o : Option (List RawEntry)) {g : Gossip} → Step g (on_receive now o g)

pub data Run : Gossip → Gossip → Type 0 where
  done : {g : Gossip} → Run g g
  next : {g h k : Gossip} → Step g h → Run h k → Run g k

Step-IsUp : {g h : Gossip} (n : ℕ) → Step g h → IsUp n g → IsUp n h
Step-IsUp n (starts now {g}) up = start-IsUp n now g up
Step-IsUp n (registers random now node {g}) up = register-IsUp random n now node g up
Step-IsUp n (deregisters random id {g} other) up = deregister-IsUp random n id g other up
Step-IsUp n (ticks random now {g}) up = timer_fired-IsUp random n now g up
Step-IsUp n (lists now {g}) up = list-IsUp n now g up
Step-IsUp n (receives now o {g}) up = on_receive-IsUp n now o g up

-- Until its own process stops or deregisters it, a node that knows itself alive at an incarnation
-- goes on knowing itself alive at one that is at least as high, whatever messages it receives.
pub Run-IsUp : {g h : Gossip} (n : ℕ) → Run g h → IsUp n g → IsUp n h
Run-IsUp n done up = up
Run-IsUp n (next step run) up = Run-IsUp n run (Step-IsUp n step up)

-- An entry that claims a live node dead, at its own incarnation or a later one that is below 2 ^ 53,
-- makes the node alive at an incarnation that beats the claim.
pub refutes :
    (now : ℕ) (e : GossipEntry) (rec : MemberRecord) (g : Gossip)
    → e.id ≡ g.self_info.id
    → Map.get g.self_info.id g.members ≡ some rec
    → e.alive ≡ false
    → rec.incarnation ≤ e.incarnation
    → e.incarnation < 9007199254740992
    → IsUp (e.incarnation + 1) (merge_valid now e g).0
unfolding merge_valid merge_self must_refute
refutes now e rec g own found dead late small =
    let louder : MemberRecord = record rec {
      incarnation = add_one e.incarnation;
      alive = true;
      last_seen = now;
    } in
    let least : e.incarnation + 1 ≤ add_one e.incarnation =
      omega (arith, add_one_exact e.incarnation small) in
    let same = same_of_eq e.id g.self_info.id own in
    let refuted : must_refute e rec ≡ true = ground arith in
    rw (same, found, refuted) (louder, get-set_self g.self_info.id louder g.members, refl, least)

-- The entry that a node sends about itself once it has taken in a claim.
abbrev pub reply : GossipEntry → MemberRecord → GossipEntry
reply e rec = record {
  id = e.id;
  address = rec.address;
  region = rec.info.region;
  metadata = rec.info.metadata;
  incarnation = rec.incarnation;
  alive = rec.alive;
}

-- A claim that a live node is dead, at an incarnation of at least 2 ^ 54 and its own or a later one,
-- leaves the node alive at the incarnation of the claim; and a peer that has taken the claim in ignores
-- what the node then sends about itself.
pub claim_wins :
    (now later : ℕ) (e : GossipEntry) (rec known : MemberRecord) (g : Gossip) (peer : Gossip)
    → e.id ≡ g.self_info.id
    → Map.get g.self_info.id g.members ≡ some rec
    → e.alive ≡ false
    → rec.incarnation ≤ e.incarnation
    → 18014398509481984 ≤ e.incarnation
    → e.id ≢ peer.self_info.id
    → Map.get e.id peer.members ≡ some known
    → known.incarnation ≡ e.incarnation
    → (r : MemberRecord) × (Map.get g.self_info.id (merge_valid now e g).0.members ≡ some r)
      × (r.alive ≡ true)
      × (r.incarnation ≡ e.incarnation)
      × (merge_valid later (reply e r) peer ≡ (peer, false))
unfolding merge_valid merge_self must_refute merge_other
claim_wins now later e rec known g peer own found dead late large other held same_claim =
    let louder : MemberRecord = record rec {
      incarnation = add_one e.incarnation;
      alive = true;
      last_seen = now;
    } in
    let stuck = add_one_stuck e.incarnation large in
    let refuted : must_refute e rec ≡ true = ground (arith, dead, late) in
    let away = same_of_ne e.id peer.self_info.id other in
    rw (same_of_eq e.id g.self_info.id own, found, refuted)
      (
        louder,
        get-set_self g.self_info.id louder g.members,
        refl,
        stuck,
        rw (away, held) (ground (arith, stuck, same_claim)),
      )
