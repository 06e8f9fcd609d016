-- ===== src/Sfu/CascadeTree/Followed.antt =====
-- Every operation of a cascade tree tells its followers what has become of the links.
use rtcforge.Map
use rtcforge.Map.{Map, Distinct, contains}
use rtcforge.Map.Laws.{
  get-set_self, get-set_ne, get-delete_self, get-delete_ne, set-Distinct, delete-Distinct,
}
use rtcforge.Prelude.{
  ℕ, Bool, true, false, not, ◌&&◌, List, [], ◌∷◌, ◌++◌, Option, none, some, String, ◌≡◌, refl, sym,
  ap, subst, ◌∙◌, inl, inr, arith, ◌===◌, if◌then◌else◌, text_key, Bool-cases, eq_of_same,
  ne_of_same,
}
use rtcforge.Sfu.SfuNode.{SfuNode}
use rtcforge.Sfu.CascadeTree.Plan.{CascadePlan, Planned, bad_fanout, bad_viewers_per_node, plan}
use rtcforge.Sfu.CascadeTree.Rooms.{
  CascadeTree, new_tree, CascadeTreeEvent, tree_built, tree_dropped, origin_lost, RoomTree, keys_of,
  links_of, diff, leaf_events, shortfall, install, built, build, drop_events, detach_found, detach,
  node_gone_in, node_gone, plan_for,
}
use rtcforge.Sfu.CascadeTree.Mirror.{
  follow, follow-append, follow-diff, follow-drop, Ignored-append, Ignored-leaf_events,
  Ignored-shortfall, Ignored-diff, Ignored-drop, tree_built-Ignored, tree_dropped-Ignored,
  origin_lost-Ignored,
}

-- Who follows the events of a room from the beginning believes in exactly the links of the room's tree.
pub record IsFollowed (t : CascadeTree) : Type 0 where
  pub distinct : Distinct (Map.keys t.rooms)
  pub believed :
      (room_id k : String)
      → contains k (follow room_id t.events [])
        ≡ contains k (keys_of (links_of (Map.get room_id t.rooms)))

-- More events, of which the follower makes of what it believed what it makes of them alone.
follow-more :
    (room_id k : String) (es fs : List CascadeTreeEvent) (b : Bool)
    → contains k (follow room_id fs (follow room_id es [])) ≡ b
    → contains k (follow room_id (es ++ fs) []) ≡ b
follow-more room_id k es fs b e = ap (contains k) (follow-append room_id es fs []) ∙ e

install-IsFollowed :
    (room_id origin_id : String) (viewer_count : ℕ) (p : CascadePlan) (t : CascadeTree)
    → IsFollowed t
    → IsFollowed (install room_id origin_id viewer_count p (Map.get room_id t.rooms) t)
unfolding install
install-IsFollowed room_id origin_id viewer_count p t v =
    let prev = Map.get room_id t.rooms in
    let tree : RoomTree = record { origin_id = origin_id; viewer_count = viewer_count; tree = p } in
    let changes = diff room_id (links_of prev) p.links in
    let others =
      leaf_events room_id p p.edges
      ++ (shortfall room_id p.unmet_viewers ++ (tree_built room_id ∷ [])) in
    let ignored = λ (r : String).
      Ignored-append r (leaf_events room_id p p.edges)
        (shortfall room_id p.unmet_viewers ++ (tree_built room_id ∷ []))
        (Ignored-leaf_events r room_id p p.edges)
        (Ignored-append r (shortfall room_id p.unmet_viewers) (tree_built room_id ∷ [])
          (Ignored-shortfall r room_id p.unmet_viewers) (tree_built-Ignored r room_id)) in
    record {
      distinct = set-Distinct room_id tree t.rooms v.distinct;
      believed = λ r k. follow-more r k t.events (changes ++ others) _ (
          ap (contains k) (
            follow-append r changes others (follow r t.events [])
            ∙ ignored r (follow r changes (follow r t.events [])))
          ∙ elim (Bool-cases (room_id === r)) [
            | inl same ↦
                subst
                  (λ s.
                    contains k (follow s changes (follow s t.events []))
                    ≡ contains k (keys_of (links_of (Map.get s (Map.set room_id tree t.rooms)))))
                  (eq_of_same room_id r same)
                  (follow-diff room_id k (links_of prev) p.links (follow room_id t.events [])
                      (v.believed room_id k)
                    ∙ ap (λ o. contains k (keys_of (links_of o)))
                        (sym (get-set_self room_id tree t.rooms)))
            | inr other ↦
                ap (contains k)
                  (Ignored-diff r room_id (links_of prev) p.links other (follow r t.events []))
                ∙ v.believed r k
                ∙ ap (λ o. contains k (keys_of (links_of o)))
                    (sym (get-set_ne room_id r tree t.rooms (ne_of_same room_id r other)))
          ]);
    }

build-IsFollowed :
    (room_id origin_id : String) (viewer_count : ℕ) (t : CascadeTree)
    → IsFollowed t
    → IsFollowed (build room_id origin_id viewer_count t).0
unfolding build
build-IsFollowed room_id origin_id viewer_count t v = by_plan (plan_for origin_id viewer_count t)
  where
    by_plan : (p : Planned) → IsFollowed (built room_id origin_id viewer_count p t).0
    by_plan bad_fanout = v
    by_plan bad_viewers_per_node = v
    by_plan (plan p) = install-IsFollowed room_id origin_id viewer_count p t v

detach_found-IsFollowed :
    (room_id : String) (o : Option RoomTree) (t : CascadeTree)
    → Map.get room_id t.rooms ≡ o
    → IsFollowed t
    → IsFollowed (detach_found room_id o t).0
unfolding detach_found contains keys_of
detach_found-IsFollowed room_id none t found v = v
detach_found-IsFollowed room_id (some room) t found v =
    let drops = drop_events room_id room.tree.links in
    record {
      distinct = delete-Distinct room_id t.rooms v.distinct;
      believed = λ r k. follow-more r k t.events (drops ++ (tree_dropped room_id ∷ [])) _ (
          ap (contains k) (
            follow-append r drops (tree_dropped room_id ∷ []) (follow r t.events [])
            ∙ tree_dropped-Ignored r room_id (follow r drops (follow r t.events [])))
          ∙ elim (Bool-cases (room_id === r)) [
            | inl same ↦
                subst
                  (λ s.
                    contains k (follow s drops (follow s t.events []))
                    ≡ contains k (keys_of (links_of (Map.get s (Map.delete room_id t.rooms)))))
                  (eq_of_same room_id r same)
                  (follow-drop room_id k room.tree.links (follow room_id t.events [])
                    ∙ emptied (contains k (follow room_id t.events []))
                        (contains k (keys_of room.tree.links))
                        (v.believed room_id k ∙ ap (λ o. contains k (keys_of (links_of o))) found)
                    ∙ ap (λ o. contains k (keys_of (links_of o)))
                        (sym (get-delete_self room_id t.rooms v.distinct)))
            | inr other ↦
                ap (contains k)
                  (Ignored-drop r room_id room.tree.links other (follow r t.events []))
                ∙ v.believed r k
                ∙ ap (λ o. contains k (keys_of (links_of o)))
                    (sym (get-delete_ne room_id r t.rooms (ne_of_same room_id r other)))
          ]);
    }
  where
    emptied : (a b : Bool) → a ≡ b → (a && not b) ≡ false
    emptied a b e = ground arith

detach-IsFollowed :
    (room_id : String) (t : CascadeTree) → IsFollowed t → IsFollowed (detach room_id t).0
unfolding detach
detach-IsFollowed room_id t v = detach_found-IsFollowed room_id (Map.get room_id t.rooms) t refl v

lost-IsFollowed :
    (room_id node_id : String) (t : CascadeTree)
    → IsFollowed t
    → IsFollowed (record t { events = t.events ++ (origin_lost room_id node_id ∷ []) })
lost-IsFollowed room_id node_id t v = record {
  distinct = v.distinct;
  believed = λ r k. follow-more r k t.events (origin_lost room_id node_id ∷ []) _ (
      ap (contains k) (origin_lost-Ignored r room_id node_id (follow r t.events []))
      ∙ v.believed r k);
}

if-IsFollowed :
    (b : Bool) (t u : CascadeTree) → IsFollowed t → IsFollowed u → IsFollowed (if b then t else u)
if-IsFollowed true t u v w = v
if-IsFollowed false t u v w = w

node_gone_in-IsFollowed :
    (node_id : String) (rooms : Map String RoomTree) (t : CascadeTree)
    → IsFollowed t
    → IsFollowed (node_gone_in node_id rooms t)
unfolding node_gone_in
node_gone_in-IsFollowed node_id [] t v = v
node_gone_in-IsFollowed node_id ((room_id, room) ∷ rooms) t v =
    let lost = (detach room_id t).0 in
    node_gone_in-IsFollowed node_id rooms _ (
      if-IsFollowed (not (Map.has node_id room.tree.nodes)) t _ v (
        if-IsFollowed (node_id === room.origin_id)
          (record lost { events = lost.events ++ (origin_lost room_id node_id ∷ []) })
          (build room_id room.origin_id room.viewer_count t).0
          (lost-IsFollowed room_id node_id lost (detach-IsFollowed room_id t v))
          (build-IsFollowed room_id room.origin_id room.viewer_count t v)))

-- An operation, or a change of the cluster's nodes by others.
pub data Step (t : CascadeTree) : CascadeTree → Type 0 where
  builds :
      (room_id origin_id : String) (viewer_count : ℕ)
      → Step t (build room_id origin_id viewer_count t).0
  detaches : (room_id : String) → Step t (detach room_id t).0
  loses : (node_id : String) → Step t (node_gone node_id t)
  changes : (cluster : List SfuNode) → Step t (record t { cluster = cluster })

pub data Reach (t : CascadeTree) : CascadeTree → Type 0 where
  here : Reach t t
  next : {u v : CascadeTree} → Reach t u → Step u v → Reach t v

Step-IsFollowed : {t u : CascadeTree} → Step t u → IsFollowed t → IsFollowed u
unfolding node_gone
Step-IsFollowed {t} (builds room_id origin_id viewer_count) v =
    build-IsFollowed room_id origin_id viewer_count t v
Step-IsFollowed {t} (detaches room_id) v = detach-IsFollowed room_id t v
Step-IsFollowed {t} (loses node_id) v = node_gone_in-IsFollowed node_id t.rooms t v
Step-IsFollowed (changes cluster) v = record { distinct = v.distinct; believed = v.believed }

-- Whatever is built, torn down or rebuilt after the loss of a node, who follows the link events of a
-- room from the beginning believes in exactly the links of the room's current tree, and in none when
-- the room has no tree.
pub Reach-IsFollowed :
    (fanout viewers_per_node : ℕ) (cluster : List SfuNode) (t : CascadeTree)
    → Reach (new_tree fanout viewers_per_node cluster) t
    → IsFollowed t
unfolding new_tree follow Map.get keys_of
Reach-IsFollowed fanout viewers_per_node cluster t here = record {
  distinct = tt;
  believed = λ room_id k. refl;
}
Reach-IsFollowed fanout viewers_per_node cluster t (next path step) =
    Step-IsFollowed step (Reach-IsFollowed fanout viewers_per_node cluster _ path)
