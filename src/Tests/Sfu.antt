-- ===== src/Tests/Sfu.antt =====
-- A tree of three nodes with two children each, and a node that is drained.
use Prim.Native.Char.{code}
use rtcforge.Map.{Distinct, contains}
use rtcforge.Prelude.{
  ◌*◌, ◌≤◌, true, false, List, [], ◌∷◌, ◌++◌, some, ◌≡◌, ◌⊎◌, refl, ap, arith, length, text_key,
}
use rtcforge.Sfu.SfuNode.{
  SfuNode, new_node, is_empty, track_room, drain, drain_end, drain_timeout, emit,
}
use rtcforge.Sfu.SfuNode.Draining.{Reach, tracks, drains, drain_lem}
use rtcforge.Sfu.CascadeTree.Plan.{
  CascadeLink, Growing, PlanParams, start, grown, finish, assign, leaves_of,
}
use rtcforge.Sfu.CascadeTree.Growth.{targets, grown_lem}
use rtcforge.Sfu.CascadeTree.Rooms.{CascadeTree, new_tree, links_of, leaf_events, diff, build}
use rtcforge.Sfu.CascadeTree.Links.{IsClear, has_link, follow_links, links_are_followed}
use rtcforge.Sfu.CascadeTree.Followed as Followed
use rtcforge.Sfu.CascadeTree.Followed.{builds}

abbrev params : PlanParams
params = record {
  origin_id = "o";
  viewer_count = 25;
  fanout = 2;
  viewers_per_node = 10;
  available_node_ids = "a" ∷ "o" ∷ "b" ∷ "c" ∷ [];
  capacity_of = some (λ id. 5);
}

grown_lem_example :
    (targets (grown params).0.links ++ (grown params).0.pool ≡ (start params).pool)
    × ((25 ≤ length (grown params).1 * 10) ⊎ ((grown params).0.pool ≡ []))
grown_lem_example = grown_lem params (omega arith)

abbrev small : Growing
small = start params

abbrev nodes : List SfuNode
nodes = new_node "o" "eu" 10 ∷ new_node "a" "eu" 10 ∷ new_node "b" "us" 10 ∷ []

abbrev built_tree : CascadeTree
built_tree = (build "r" "o" 15 (new_tree 2 10 nodes)).0

abbrev first_link : CascadeLink
first_link = record { source = "o"; target = "a" }

o-IsClear : IsClear "o"
o-IsClear = (λ e. absurd (omega (arith, ap code e)), tt)

links_are_followed_example :
    has_link first_link (follow_links "r" built_tree.events [])
    ≡ has_link first_link (links_of (rtcforge.Map.get "r" built_tree.rooms))
unfolding build new_tree new_node finish diff leaf_events assign leaves_of contains rtcforge.Map.get
    rtcforge.Map.set
links_are_followed_example =
    links_are_followed 2 10 nodes built_tree "r" first_link
      (Followed.next Followed.here (builds "r" "o" 15))
      (o-IsClear, (o-IsClear, (tt, (tt, (tt, tt))))) (o-IsClear, (o-IsClear, tt)) o-IsClear

abbrev drained_node : SfuNode
drained_node = drain (track_room "r" (new_node "a" "eu" 10))

draining_begun : drained_node.draining ≡ true
unfolding drain track_room new_node emit rtcforge.Map.contains
draining_begun = refl

drain_lem_example :
    (is_empty drained_node.rooms ≡ true → (drain_end drained_node).draining ≡ false)
    × ((drain_end (drain_timeout drained_node)).draining ≡ false)
drain_lem_example =
    drain_lem "a" "eu" 10 drained_node (Reach.next (Reach.next Reach.here (tracks "r")) drains)
      draining_begun
