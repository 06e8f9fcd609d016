-- ===== src/Sfu/CascadeTree/Mirror.antt =====
-- A follower of the link events knows the links of every room's tree.
use rtcforge.Map.{contains}
use rtcforge.Prelude.{
  ℕ, false, not, ◌&&◌, ◌||◌, List, [], ◌∷◌, ◌++◌, String, ◌≡◌, refl, ap, ◌∙◌, inl, inr, arith,
  ◌===◌, if◌then◌else◌, text_key, Bool-cases, eq_of_same, same_of_eq, same_self,
}
use rtcforge.Sfu.SfuNode.{remove_all}
use rtcforge.Sfu.CascadeTree.Plan.{CascadePlan, CascadeLink}
use rtcforge.Sfu.CascadeTree.Rooms.{
  CascadeTreeEvent, link_created, link_dropped, tree_built, tree_dropped, origin_lost, link_key,
  keys_of, dropped_events, created_events, diff, leaf_events, shortfall, drop_events,
}

-- The follower of one room: the keys of the links that it believes in.
unfoldable pub hear : String → CascadeTreeEvent → List String → List String
unfolding remove_all
hear room_id (link_created r l) believed = if r === room_id then link_key l ∷ believed else believed
hear room_id (link_dropped r l) believed =
    if r === room_id then remove_all (link_key l) believed else believed
hear room_id e believed = believed

unfoldable pub follow : String → List CascadeTreeEvent → List String → List String
unfolding hear
follow room_id [] believed = believed
follow room_id (e ∷ es) believed = follow room_id es (hear room_id e believed)

hear-dropped :
    (room_id : String) (l : CascadeLink) (m : List String)
    → hear room_id (link_dropped room_id l) m ≡ remove_all (link_key l) m
unfolding hear
hear-dropped room_id l m = ap (λ b. if b then remove_all (link_key l) m else m) (same_self room_id)

hear-created :
    (room_id : String) (l : CascadeLink) (m : List String)
    → hear room_id (link_created room_id l) m ≡ link_key l ∷ m
unfolding hear
hear-created room_id l m = ap (λ b. if b then link_key l ∷ m else m) (same_self room_id)

hear-dropped_other :
    (room_id r : String) (l : CascadeLink) (m : List String)
    → (r === room_id) ≡ false
    → hear room_id (link_dropped r l) m ≡ m
unfolding hear
hear-dropped_other room_id r l m other = ap (λ b. if b then remove_all (link_key l) m else m) other

hear-created_other :
    (room_id r : String) (l : CascadeLink) (m : List String)
    → (r === room_id) ≡ false
    → hear room_id (link_created r l) m ≡ m
unfolding hear
hear-created_other room_id r l m other = ap (λ b. if b then link_key l ∷ m else m) other

pub follow-append :
    (room_id : String) (es fs : List CascadeTreeEvent) (m : List String)
    → follow room_id (es ++ fs) m ≡ follow room_id fs (follow room_id es m)
unfolding follow
follow-append room_id [] fs m = refl
follow-append room_id (e ∷ es) fs m = follow-append room_id es fs (hear room_id e m)

contains-remove_all :
    (a k : String) (m : List String) → contains k (remove_all a m) ≡ (contains k m && not (a === k))
unfolding remove_all contains
contains-remove_all a k [] = refl
contains-remove_all a k (x ∷ m) = ground (
  arith,
  contains-remove_all a k m,
  eq_of_same x a,
  eq_of_same x k,
  same_of_eq a k,
  same_of_eq x k,
  eq_of_same a k,
  same_of_eq x a,
)

follow-dropped :
    (room_id k : String) (kept : List String) (links : List CascadeLink) (m : List String)
    → contains k (follow room_id (dropped_events room_id kept links) m)
      ≡ (contains k m && not (contains k (keys_of links) && not (contains k kept)))
unfolding follow hear dropped_events keys_of contains
follow-dropped room_id k kept [] m = ground arith
follow-dropped room_id k kept (l ∷ links) m = elim (Bool-cases (contains (link_key l) kept)) [
  | inl stays ↦
      rw stays
        (follow-dropped room_id k kept links m ∙ ground (arith, eq_of_same (link_key l) k, stays))
  | inr goes ↦ rw goes (
      ap (λ x. contains k (follow room_id (dropped_events room_id kept links) x))
        (hear-dropped room_id l m)
      ∙ follow-dropped room_id k kept links (remove_all (link_key l) m)
      ∙ ground (arith, contains-remove_all (link_key l) k m, eq_of_same (link_key l) k, goes))
]

follow-created :
    (room_id k : String) (known : List String) (links : List CascadeLink) (m : List String)
    → contains k (follow room_id (created_events room_id known links) m)
      ≡ (contains k m || (contains k (keys_of links) && not (contains k known)))
unfolding follow hear created_events keys_of contains
follow-created room_id k known [] m = ground arith
follow-created room_id k known (l ∷ links) m = elim (Bool-cases (contains (link_key l) known)) [
  | inl old ↦
      rw old
        (follow-created room_id k known links m ∙ ground (arith, eq_of_same (link_key l) k, old))
  | inr fresh ↦ rw fresh (
      ap (λ x. contains k (follow room_id (created_events room_id known links) x))
        (hear-created room_id l m)
      ∙ follow-created room_id k known links (link_key l ∷ m)
      ∙ ground (arith, eq_of_same (link_key l) k, fresh))
]

pub follow-drop :
    (room_id k : String) (links : List CascadeLink) (m : List String)
    → contains k (follow room_id (drop_events room_id links) m)
      ≡ (contains k m && not (contains k (keys_of links)))
unfolding follow hear drop_events keys_of contains
follow-drop room_id k [] m = ground arith
follow-drop room_id k (l ∷ links) m =
    ap (λ x. contains k (follow room_id (drop_events room_id links) x)) (hear-dropped room_id l m)
    ∙ follow-drop room_id k links (remove_all (link_key l) m)
    ∙ ground (arith, contains-remove_all (link_key l) k m)

-- Events that say nothing of the links of `room_id`.
abbrev pub Ignored : String → List CascadeTreeEvent → Type 0
Ignored room_id es = (m : List String) → follow room_id es m ≡ m

pub Ignored-append :
    (room_id : String) (es fs : List CascadeTreeEvent)
    → Ignored room_id es
    → Ignored room_id fs
    → Ignored room_id (es ++ fs)
Ignored-append room_id es fs i j m = follow-append room_id es fs m ∙ j (follow room_id es m) ∙ i m

pub Ignored-leaf_events :
    (room_id r : String) (p : CascadePlan) (edges : List String)
    → Ignored room_id (leaf_events r p edges)
unfolding follow hear leaf_events
Ignored-leaf_events room_id r p [] m = refl
Ignored-leaf_events room_id r p (id ∷ edges) m = Ignored-leaf_events room_id r p edges m

pub Ignored-shortfall : (room_id r : String) (unmet : ℕ) → Ignored room_id (shortfall r unmet)
unfolding follow hear
Ignored-shortfall room_id r unmet m = ground arith

Ignored-dropped :
    (room_id r : String) (kept : List String) (links : List CascadeLink)
    → (r === room_id) ≡ false
    → Ignored room_id (dropped_events r kept links)
unfolding follow hear dropped_events
Ignored-dropped room_id r kept [] other m = refl
Ignored-dropped room_id r kept (l ∷ links) other m =
    elim (Bool-cases (contains (link_key l) kept)) [
      | inl stays ↦ rw stays (Ignored-dropped room_id r kept links other m)
      | inr goes ↦ rw goes (
          ap (follow room_id (dropped_events r kept links)) (hear-dropped_other room_id r l m other)
          ∙ Ignored-dropped room_id r kept links other m)
    ]

Ignored-created :
    (room_id r : String) (known : List String) (links : List CascadeLink)
    → (r === room_id) ≡ false
    → Ignored room_id (created_events r known links)
unfolding follow hear created_events
Ignored-created room_id r known [] other m = refl
Ignored-created room_id r known (l ∷ links) other m =
    elim (Bool-cases (contains (link_key l) known)) [
      | inl old ↦ rw old (Ignored-created room_id r known links other m)
      | inr fresh ↦ rw fresh (
          ap (follow room_id (created_events r known links))
            (hear-created_other room_id r l m other)
          ∙ Ignored-created room_id r known links other m)
    ]

pub Ignored-drop :
    (room_id r : String) (links : List CascadeLink)
    → (r === room_id) ≡ false
    → Ignored room_id (drop_events r links)
unfolding follow hear drop_events
Ignored-drop room_id r [] other m = refl
Ignored-drop room_id r (l ∷ links) other m =
    ap (follow room_id (drop_events r links)) (hear-dropped_other room_id r l m other)
    ∙ Ignored-drop room_id r links other m

-- After the difference of two sets of links, a follower of the old ones follows the new ones.
pub follow-diff :
    (room_id k : String) (old_links new_links : List CascadeLink) (m : List String)
    → contains k m ≡ contains k (keys_of old_links)
    → contains k (follow room_id (diff room_id old_links new_links) m)
      ≡ contains k (keys_of new_links)
unfolding diff
follow-diff room_id k old_links new_links m e =
    let gone = dropped_events room_id (keys_of new_links) old_links in
    ap (contains k)
      (follow-append room_id gone (created_events room_id (keys_of old_links) new_links) m)
    ∙ follow-created room_id k (keys_of old_links) new_links (follow room_id gone m)
    ∙ ground (arith, follow-dropped room_id k (keys_of new_links) old_links m, e)

pub Ignored-diff :
    (room_id r : String) (old_links new_links : List CascadeLink)
    → (r === room_id) ≡ false
    → Ignored room_id (diff r old_links new_links)
unfolding diff
Ignored-diff room_id r old_links new_links other =
    Ignored-append room_id (dropped_events r (keys_of new_links) old_links)
      (created_events r (keys_of old_links) new_links)
      (Ignored-dropped room_id r (keys_of new_links) old_links other)
      (Ignored-created room_id r (keys_of old_links) new_links other)

pub tree_built-Ignored : (room_id r : String) → Ignored room_id (tree_built r ∷ [])
unfolding follow hear
tree_built-Ignored room_id r m = refl

pub tree_dropped-Ignored : (room_id r : String) → Ignored room_id (tree_dropped r ∷ [])
unfolding follow hear
tree_dropped-Ignored room_id r m = refl

pub origin_lost-Ignored :
    (room_id r node_id : String) → Ignored room_id (origin_lost r node_id ∷ [])
unfolding follow hear
origin_lost-Ignored room_id r node_id m = refl
