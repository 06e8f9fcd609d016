-- ===== src/Tests/Gossip.antt =====
-- A node "a" that hears of a node "b", at concrete inputs.
use rtcforge.Map
use rtcforge.Map.{contains}
use rtcforge.Prelude.{
  ℕ, ◌+◌, ◌≤◌, true, false, [], ◌∷◌, none, some, ◌≡◌, refl, arith, ne_of_same, text_key, ◌↔◌,
}
use rtcforge.Core.Gossip.Entries.{NodeInfo, GossipEntry, MemberRecord, RawEntry}
use rtcforge.Core.Gossip.{
  Gossip, GossipOptions, new_gossip, start, timer_fired, on_receive, merge_valid, sweep,
}
use rtcforge.Core.Gossip.Merge.{view, on_receive_converges}
use rtcforge.Core.Gossip.Self.{IsUp, Run, Run-IsUp, Step, refutes}
use rtcforge.Core.Gossip.Sweep.{sweep-alive}

abbrev node_a : NodeInfo
node_a = record { id = "a"; region = none; address = none; metadata = [] }

abbrev options : GossipOptions
options = record {
  seeds = "s" ∷ [];
  interval_ms = none;
  fanout = none;
  dead_timeout_ms = none;
  tombstone_ms = none;
}

abbrev node : Gossip
node = new_gossip node_a "addr-a" options 0

abbrev b_alive : RawEntry
b_alive = RawEntry.object (some "b") (some 4) (some true) (some "addr-b") none []

abbrev b_dead : RawEntry
b_dead = RawEntry.object (some "b") (some 4) (some false) (some "addr-b") none []

abbrev a_dead : RawEntry
a_dead = RawEntry.object (some "a") (some 9) (some false) none none []

abbrev own_record : MemberRecord
own_record = record {
  info = node_a;
  address = some "addr-a";
  incarnation = 0;
  alive = true;
  last_seen = 0;
}

abbrev b_record : MemberRecord
b_record = record { info = node_a; address = none; incarnation = 3; alive = true; last_seen = 500 }

on_receive_converges_example :
    (view "b" (
        on_receive 2
          (some (b_dead ∷ []))
          (on_receive 1 (some (b_alive ∷ RawEntry.no_object ∷ [])) node))
      ≡ view "b" (
          on_receive 2
            (some (b_alive ∷ RawEntry.no_object ∷ []))
            (on_receive 1 (some (b_dead ∷ [])) node)))
    × (view "b" (
          on_receive 2
            (some (b_alive ∷ RawEntry.no_object ∷ []))
            (on_receive 1 (some (b_alive ∷ RawEntry.no_object ∷ [])) node))
        ≡ view "b" (on_receive 1 (some (b_alive ∷ RawEntry.no_object ∷ [])) node))
unfolding new_gossip
on_receive_converges_example =
    on_receive_converges 1 2 (b_alive ∷ RawEntry.no_object ∷ []) (b_dead ∷ []) "b" node
      (ne_of_same "a" "b" refl)

abbrev first_drawn : ℕ → ℕ → ℕ
first_drawn round n = 0

busy_node-Run :
    Run node (timer_fired first_drawn 60 (on_receive 50 (some (a_dead ∷ [])) (start 10 node)))
busy_node-Run = Run.next (Step.starts 10) (
    Run.next (Step.receives 50 (some (a_dead ∷ [])))
      (Run.next (Step.ticks first_drawn 60) Run.done))

node-IsUp : IsUp 0 node
unfolding new_gossip Map.get
node-IsUp = (
  record { info = node_a; address = some "addr-a"; incarnation = 0; alive = true; last_seen = 0 },
  refl,
  refl,
  omega arith,
)

Run-IsUp_example :
    IsUp 0 (timer_fired first_drawn 60 (on_receive 50 (some (a_dead ∷ [])) (start 10 node)))
Run-IsUp_example = Run-IsUp 0 busy_node-Run node-IsUp

abbrev claim : GossipEntry
claim = record {
  id = "a";
  address = none;
  region = none;
  metadata = [];
  incarnation = 9;
  alive = false;
}

found_own : Map.get "a" node.members ≡ some own_record
unfolding new_gossip Map.get
found_own = refl

refutes_example : IsUp 10 (merge_valid 70 claim node).0
unfolding new_gossip
refutes_example = refutes 70 claim own_record node refl found_own refl (omega arith) (omega arith)

abbrev met : Gossip
met = record node { members = ("a", own_record) ∷ ("b", b_record) ∷ [] }

sweep-alive_example :
    ((Map.get "b" (sweep 1500 met).members ≡ some b_record) × (b_record.alive ≡ true)) ↔ (
      (Map.get "b" met.members ≡ some b_record)
      × (b_record.alive ≡ true)
      × (1500 ≤ b_record.last_seen + met.dead_ms))
unfolding new_gossip contains
sweep-alive_example = sweep-alive 1500 "b" b_record met (refl, (refl, tt)) (ne_of_same "b" "a" refl)
