-- ===== src/Core/Gossip.antt =====
-- packages/core/src/Gossip.ts: cluster membership by anti-entropy gossip. Time is an argument.
-- `notified` logs the snapshots that watchers were given, `sent` the messages and where they went.
pub mod Entries
pub mod Merge
pub mod Self
pub mod Sweep
use Prim.Native.Nat.{pred}
use rtcforge.Map
use rtcforge.Map.{Map, contains}
use rtcforge.Prelude.{
  ℕ, zero, suc, ◌+◌, ◌*◌, Bool, true, false, not, ◌&&◌, ◌||◌, List, [], ◌∷◌, ◌++◌, map, Option,
  none, some, String, leb, ltb, ◌==◌, ◌===◌, if◌then◌else◌, length, get_elem?, text_key,
}
use Entries.{NodeInfo, GossipEntry, GossipMessage, MemberRecord, RawEntry, add_one, valid_entry}

pub record Gossip : Type 0 where
  pub self_info : NodeInfo
  pub transport_address : String
  pub interval_ms : ℕ
  pub fanout : ℕ
  pub dead_ms : ℕ
  pub tombstone_ms : ℕ
  pub seeds : List String
  pub members : Map String MemberRecord
  pub running : Bool
  pub notified : List (List NodeInfo)
  pub sent : List (String × GossipMessage)

pub record GossipOptions : Type 0 where
  pub seeds : List String
  pub interval_ms : Option ℕ
  pub fanout : Option ℕ
  pub dead_timeout_ms : Option ℕ
  pub tombstone_ms : Option ℕ

-- `a ?? b`
abbrev pub or_else {ℓ} : {A : Type ℓ} → Option A → A → A
or_else none b = b
or_else (some a) b = a

-- `Set.add`
unfoldable pub add_to_set : String → List String → List String
add_to_set a xs = if contains a xs then xs else xs ++ (a ∷ [])

-- `Set.delete`
unfoldable pub remove_from_set : String → List String → List String
remove_from_set a [] = []
remove_from_set a (x ∷ xs) = if x === a then xs else x ∷ remove_from_set a xs

-- A set from an array, in the order of insertion.
unfoldable pub to_set : List String → List String → List String
unfolding add_to_set
to_set set [] = set
to_set set (x ∷ xs) = to_set (add_to_set x set) xs

unfoldable pub new_gossip : NodeInfo → String → GossipOptions → ℕ → Gossip
unfolding to_set
new_gossip self address opts now =
    let interval = or_else opts.interval_ms 200 in
    let dead = or_else opts.dead_timeout_ms (interval * 5) in
    record {
      self_info = self;
      transport_address = address;
      interval_ms = interval;
      fanout = or_else opts.fanout 3;
      dead_ms = dead;
      tombstone_ms = or_else opts.tombstone_ms (dead * 10);
      seeds = to_set [] opts.seeds;
      members =
          (
            self.id,
            record {
              info = self;
              address = some address;
              incarnation = 0;
              alive = true;
              last_seen = now;
            },
          )
          ∷ [];
      running = false;
      notified = [];
      sent = [];
    }

unfoldable pub alive_infos : Map String MemberRecord → List NodeInfo
alive_infos [] = []
alive_infos ((id, rec) ∷ m) = if rec.alive then rec.info ∷ alive_infos m else alive_infos m

unfoldable pub notify : Gossip → Gossip
unfolding alive_infos
notify g = record g { notified = g.notified ++ (alive_infos g.members ∷ []) }

-- The digest that `_gossip` sends.
unfoldable pub digest : Map String MemberRecord → List GossipEntry
digest [] = []
digest ((id, rec) ∷ m) =
    record {
      id = rec.info.id;
      address = rec.address;
      region = rec.info.region;
      metadata = rec.info.metadata;
      incarnation = rec.incarnation;
      alive = rec.alive;
    }
    ∷ digest m

-- `!rec.address` holds of no address and of the empty one.
abbrev pub usable : Option String → Option String
usable none = none
usable (some address) = if address === "" then none else some address

unfoldable pub add_usable : Option String → List String → List String
unfolding add_to_set
add_usable none set = set
add_usable (some address) set = add_to_set address set

-- The addresses of the live members, then the seeds, without the node's own.
unfoldable pub member_addresses : String → Map String MemberRecord → List String → List String
unfolding add_usable
member_addresses self [] set = set
member_addresses self ((id, rec) ∷ m) set =
    member_addresses self m
      (if rec.info.id === self || not rec.alive then set else add_usable (usable rec.address) set)

unfoldable pub seed_addresses : String → List String → List String → List String
unfolding add_to_set
seed_addresses own [] set = set
seed_addresses own (s ∷ seeds) set =
    seed_addresses own seeds (if s === own then set else add_to_set s set)

-- `pool[idx]`, and the pool without it.
unfoldable pub draw_at : ℕ → List String → Option String × List String
draw_at i [] = (none, [])
draw_at zero (x ∷ xs) = (some x, xs)
draw_at (suc i) (x ∷ xs) = let (found, rest) = draw_at i xs in (found, x ∷ rest)

-- The loop that draws `rounds` targets: `random n` is `Math.floor(Math.random() * n)` of the round.
unfoldable pub draw_targets : (ℕ → ℕ → ℕ) → ℕ → List String → List String
unfolding draw_at
draw_targets random zero pool = []
draw_targets random (suc rounds) [] = []
draw_targets random (suc rounds) (p ∷ pool) =
    let (found, rest) = draw_at (random rounds (length (p ∷ pool))) (p ∷ pool) in
    let more = draw_targets random rounds rest in elim found [ none ↦ more | some a ↦ a ∷ more ]

unfoldable pub pick_targets : (ℕ → ℕ → ℕ) → Gossip → List String
unfolding member_addresses seed_addresses draw_targets
pick_targets random g =
    let all =
      seed_addresses g.transport_address g.seeds (member_addresses g.self_info.id g.members []) in
    if leb (length all) g.fanout then all else draw_targets random g.fanout all

unfoldable pub gossip : (ℕ → ℕ → ℕ) → Gossip → Gossip
unfolding digest pick_targets
gossip random g =
    let msg : GossipMessage = record { from = g.self_info.id; members = digest g.members } in
    record g { sent = g.sent ++ map (λ to. (to, msg)) (pick_targets random g) }

-- What the loop of `_sweep` does with a record.
pub data Verdict : Type 0 where
  keep die forget : Verdict

-- `now - lastSeen > limit` is written `lastSeen + limit < now`.
unfoldable pub verdict : String → ℕ → ℕ → ℕ → String → MemberRecord → Verdict
verdict self now dead_ms tombstone_ms id rec =
    if id === self
    then keep
    else if rec.alive
    then (if ltb (rec.last_seen + dead_ms) now then die else keep)
    else if ltb (rec.last_seen + tombstone_ms) now
    then forget
    else keep

module _ (self : String) (now dead_ms tombstone_ms : ℕ) where
  -- The members after the loop.
  unfoldable pub swept : Map String MemberRecord → Map String MemberRecord
  unfolding verdict
  swept [] = []
  swept ((id, rec) ∷ m) =
      let rest = swept m in
      elim (verdict self now dead_ms tombstone_ms id rec) [
        | keep ↦ (id, rec) ∷ rest
        | die ↦ (id, record rec { alive = false; incarnation = add_one rec.incarnation }) ∷ rest
        | forget ↦ rest
      ]

  -- The local `changed`.
  unfoldable pub any_died : Map String MemberRecord → Bool
  unfolding verdict
  any_died [] = false
  any_died ((id, rec) ∷ m) =
      let rest = any_died m in
      elim (verdict self now dead_ms tombstone_ms id rec) [ die ↦ true | _ ↦ rest ]

  -- The seeds without the addresses of the members that are forgotten.
  unfoldable pub kept_seeds : Map String MemberRecord → List String → List String
  unfolding verdict remove_from_set
  kept_seeds [] seeds = seeds
  kept_seeds ((id, rec) ∷ m) seeds =
      kept_seeds m (elim (verdict self now dead_ms tombstone_ms id rec) [
        | forget ↦ elim rec.address [ none ↦ seeds | some a ↦ remove_from_set a seeds ]
        | _ ↦ seeds
      ])

unfoldable pub sweep : ℕ → Gossip → Gossip
unfolding swept any_died kept_seeds notify
sweep now g =
    let g' = record g {
      members = swept g.self_info.id now g.dead_ms g.tombstone_ms g.members;
      seeds = kept_seeds g.self_info.id now g.dead_ms g.tombstone_ms g.members g.seeds;
    } in
    if any_died g.self_info.id now g.dead_ms g.tombstone_ms g.members then notify g' else g'

-- `self.incarnation += 1` and what is set with it, on the record of the node itself.
unfoldable pub update_self : (MemberRecord → MemberRecord) → Gossip → Gossip
update_self f g = elim (Map.get g.self_info.id g.members) [
  | none ↦ g
  | some rec ↦ record g { members = Map.set g.self_info.id (f rec) g.members }
]

abbrev pub is_some {ℓ} : {A : Type ℓ} → Option A → Bool
is_some none = false
is_some (some a) = true

unfoldable pub start : ℕ → Gossip → Gossip
unfolding update_self notify
start now g =
    if g.running
    then g
    else let up = record g { running = true } in
      let revived =
        update_self
          (λ rec. record rec {
            alive = true;
            incarnation = add_one rec.incarnation;
            last_seen = now;
          })
          up in
      if is_some (Map.get g.self_info.id g.members) then notify revived else revived

unfoldable pub stop : (ℕ → ℕ → ℕ) → Gossip → Gossip
unfolding update_self gossip
stop random g =
    if not g.running
    then g
    else let down =
        update_self (λ rec. record rec { alive = false; incarnation = add_one rec.incarnation })
          (record g { running = false }) in
      if is_some (Map.get g.self_info.id g.members) then gossip random down else down

unfoldable pub register : (ℕ → ℕ → ℕ) → ℕ → NodeInfo → Gossip → Gossip
unfolding update_self notify gossip add_usable
register random now node g =
    if node.id === g.self_info.id
    then gossip random (
        notify (
          update_self
            (λ rec. record rec {
              info = node;
              alive = true;
              incarnation = add_one rec.incarnation;
              last_seen = now;
            })
            g))
    else record g { seeds = add_usable (usable node.address) g.seeds }

-- The branch of `deregister` on the record that it finds.
unfoldable pub deregister_found : (ℕ → ℕ → ℕ) → String → Option MemberRecord → Gossip → Gossip
unfolding notify gossip
deregister_found random id none g = g
deregister_found random id (some rec) g =
    if not rec.alive
    then g
    else gossip random (
        notify (record g {
          members =
              Map.set id (record rec { alive = false; incarnation = add_one rec.incarnation })
                g.members;
        }))

unfoldable pub deregister : (ℕ → ℕ → ℕ) → String → Gossip → Gossip
unfolding deregister_found
deregister random id g = deregister_found random id (Map.get id g.members) g

unfoldable pub list : ℕ → Gossip → Gossip × List NodeInfo
unfolding sweep alive_infos
list now g = let g' = sweep now g in (g', alive_infos g'.members)

unfoldable pub tick : (ℕ → ℕ → ℕ) → ℕ → Gossip → Gossip
unfolding update_self sweep gossip
tick random now g = gossip random (
    sweep now (
      update_self (λ rec. record rec { incarnation = add_one rec.incarnation; last_seen = now }) g))

-- The timer's callback: it does nothing once the node is stopped.
unfoldable pub timer_fired : (ℕ → ℕ → ℕ) → ℕ → Gossip → Gossip
unfolding tick
timer_fired random now g = if g.running then tick random now g else g

-- `mustRefute`
unfoldable pub must_refute : GossipEntry → MemberRecord → Bool
must_refute e rec =
    ltb rec.incarnation e.incarnation || (e.incarnation == rec.incarnation && not e.alive)

unfoldable pub entry_info : GossipEntry → NodeInfo
entry_info e = record { id = e.id; region = e.region; address = e.address; metadata = e.metadata }

-- An entry about the node itself.
unfoldable pub merge_self : ℕ → GossipEntry → Option MemberRecord → Gossip → Gossip
unfolding must_refute
merge_self now e none g = g
merge_self now e (some rec) g =
    if must_refute e rec
    then record g {
      members =
          Map.set g.self_info.id
            (record rec { incarnation = add_one e.incarnation; alive = true; last_seen = now })
            g.members;
    }
    else g

-- An entry about another node, and the Boolean that `_merge` returns.
unfoldable pub merge_other : ℕ → GossipEntry → Option MemberRecord → Gossip → Gossip × Bool
unfolding entry_info add_usable
merge_other now e none g = (
  record g {
    members =
        Map.set e.id
          (record {
            info = entry_info e;
            address = e.address;
            incarnation = e.incarnation;
            alive = e.alive;
            last_seen = now;
          })
          g.members;
    seeds = add_usable (usable e.address) g.seeds;
  },
  e.alive,
)
merge_other now e (some known) g =
    if e.incarnation == known.incarnation && not e.alive && known.alive
    then (
      record g {
        members = Map.set e.id (record known { alive = false; last_seen = now }) g.members;
      },
      true,
    )
    else if ltb known.incarnation e.incarnation
    then (
      record g {
        members =
            Map.set e.id
              (record {
                info = entry_info e;
                address = e.address;
                incarnation = e.incarnation;
                alive = e.alive;
                last_seen = now;
              })
              g.members;
      },
      if known.alive then not e.alive else e.alive,
    )
    else (g, false)

unfoldable pub merge_valid : ℕ → GossipEntry → Gossip → Gossip × Bool
unfolding merge_self merge_other
merge_valid now e g =
    if e.id === g.self_info.id
    then (merge_self now e (Map.get g.self_info.id g.members) g, false)
    else merge_other now e (Map.get e.id g.members) g

merge_checked : ℕ → Option GossipEntry → Gossip → Gossip × Bool
unfolding merge_valid
merge_checked now none g = (g, false)
merge_checked now (some e) g = merge_valid now e g

unfoldable pub merge : ℕ → RawEntry → Gossip → Gossip × Bool
unfolding merge_checked valid_entry
merge now raw g = merge_checked now (valid_entry raw) g

-- The loop of `_onReceive`.
unfoldable pub merge_all : ℕ → List RawEntry → Gossip → Bool → Gossip × Bool
unfolding merge
merge_all now [] g changed = (g, changed)
merge_all now (raw ∷ rest) g changed =
    let (g', new) = merge now raw g in merge_all now rest g' (new || changed)

-- A message whose `members` is no array is ignored.
unfoldable pub on_receive : ℕ → Option (List RawEntry) → Gossip → Gossip
unfolding merge_all notify
on_receive now none g = g
on_receive now (some members) g =
    let (g', changed) = merge_all now members g false in if changed then notify g' else g'
