-- ===== src/Sfu/CascadeTree/Links.antt =====
-- The links that a follower of a room's events believes in. `_diff` compares links by their keys, which
-- tell them apart as long as no link starts at a node with a '>' in its id.
use Prim.Native.String.{[] as end, ◌∷◌ as ◌then_text◌, ◌++◌ as ◌then◌}
use Prim.Native.String.append
use Prim.Native.Char.{Char}
use text.Mathlib.TextLemmas.{append_assoc}
use rtcforge.Map
use rtcforge.Map.{contains}
use rtcforge.Prelude.{
  ℕ, Bool, false, ◌&&◌, ◌||◌, List, [], ◌∷◌, String, ◌≡◌, ◌≢◌, refl, sym, ap, ◌∙◌, inl, inr, arith,
  ◌===◌, if◌then◌else◌, if_lem, text_key, Bool-cases, eq_of_same, same_of_eq,
}
use rtcforge.Sfu.SfuNode.{SfuNode, remove_all}
use rtcforge.Sfu.CascadeTree.Plan.{CascadeLink}
use rtcforge.Sfu.CascadeTree.Rooms.{
  CascadeTree, new_tree, CascadeTreeEvent, link_created, link_dropped, leaf_assigned,
  capacity_shortfall, tree_built, tree_dropped, origin_lost, link_key, keys_of, dropped_events,
  created_events, diff, links_of,
}
use rtcforge.Sfu.CascadeTree.Mirror.{hear, follow}
use rtcforge.Sfu.CascadeTree.Followed.{Reach, Reach-IsFollowed}

abbrev gt : Char
gt = ">"

-- No '>' in the text.
abbrev pub IsClear : String → Type 0
IsClear end = Unit
IsClear (c then_text s) = (c ≢ gt) × IsClear s

module _ (t : String) where
  no_text : (end then t) ≡ t
  no_text i = append.nil t i

  one_more : (c : Char) (s : String) → (c then_text s then t) ≡ c then_text (s then t)
  one_more c s i = append.cons c s t i

abbrev key : String → String → String
key s t = s then ">" then t

head_or : Char → String → Char
head_or d end = d
head_or d (c then_text s) = c

tail_of : String → String
tail_of end = end
tail_of (c then_text s) = s

end-key : (t : String) → key end t ≡ gt then_text t
end-key t = no_text (">" then t) ∙ one_more t gt end ∙ ap (λ s. gt then_text s) (no_text t)

more-key : (c : Char) (s t : String) → key (c then_text s) t ≡ c then_text key s t
more-key c s t = one_more (">" then t) c s

key_split :
    (s s' t t' : String) → IsClear s → IsClear s' → key s t ≡ key s' t' → (s ≡ s') × (t ≡ t')
unfolding head_or tail_of
key_split end end t t' h h' e = (refl, ap tail_of (sym (end-key t) ∙ e ∙ end-key t'))
key_split end (c then_text s') t t' h h' e =
    absurd (h'.0 (sym (ap (head_or gt) (sym (end-key t) ∙ e ∙ more-key c s' t'))))
key_split (c then_text s) end t t' h h' e =
    absurd (h.0 (ap (head_or gt) (sym (more-key c s t) ∙ e ∙ end-key t')))
key_split (c then_text s) (d then_text s') t t' h h' e =
    let e' = sym (more-key c s t) ∙ e ∙ more-key d s' t' in
    let rest = key_split s s' t t' h.1 h'.1 (ap tail_of e') in
    (λ i. ap (head_or gt) e' i then_text rest.0 i, rest.1)

abbrev same_link : CascadeLink → CascadeLink → Bool
same_link l m = l.source === m.source && l.target === m.target

-- For links that start at clear ids, to have the same key is to be the same.
same-link_key :
    (l m : CascadeLink)
    → IsClear l.source
    → IsClear m.source
    → (link_key l === link_key m) ≡ same_link l m
same-link_key l m h h' = elim (Bool-cases (link_key l === link_key m)) [
  | inl same ↦
      let (sources, targets) =
        key_split l.source m.source l.target m.target h h'
          (eq_of_same (link_key l) (link_key m) same) in
      ground
        (arith, same, same_of_eq l.source m.source sources, same_of_eq l.target m.target targets)
  | inr other ↦ elim (Bool-cases (same_link l m)) [
    | inl same ↦
        let sources = eq_of_same l.source m.source (ground (arith, same)) in
        let targets = eq_of_same l.target m.target (ground (arith, same)) in
        absurd (
          ground (
            arith,
            other,
            same_of_eq (link_key l) (link_key m) (λ i. sources i then ">" then targets i),
          ))
    | inr different ↦ other ∙ sym different
  ]
]

unfoldable pub has_link : CascadeLink → List CascadeLink → Bool
has_link k [] = false
has_link k (l ∷ links) = same_link l k || has_link k links

unfoldable pub drop_link : CascadeLink → List CascadeLink → List CascadeLink
drop_link k [] = []
drop_link k (l ∷ links) = let rest = drop_link k links in if same_link l k then rest else l ∷ rest

-- A follower of the links themselves.
unfoldable pub hear_link : String → CascadeTreeEvent → List CascadeLink → List CascadeLink
unfolding drop_link
hear_link room_id (link_created r l) links = if r === room_id then l ∷ links else links
hear_link room_id (link_dropped r l) links = if r === room_id then drop_link l links else links
hear_link room_id e links = links

unfoldable pub follow_links : String → List CascadeTreeEvent → List CascadeLink → List CascadeLink
unfolding hear_link
follow_links room_id [] links = links
follow_links room_id (e ∷ es) links = follow_links room_id es (hear_link room_id e links)

abbrev pub AreClear : List CascadeLink → Type 0
AreClear [] = Unit
AreClear (l ∷ links) = IsClear l.source × AreClear links

abbrev pub IsClearEvent : CascadeTreeEvent → Type 0
IsClearEvent (link_created r l) = IsClear l.source
IsClearEvent (link_dropped r l) = IsClear l.source
IsClearEvent _ = Unit

abbrev pub AreClearEvents : List CascadeTreeEvent → Type 0
AreClearEvents [] = Unit
AreClearEvents (e ∷ es) = IsClearEvent e × AreClearEvents es

has_link-keys_of :
    (k : CascadeLink) (links : List CascadeLink)
    → IsClear k.source
    → AreClear links
    → contains (link_key k) (keys_of links) ≡ has_link k links
unfolding has_link keys_of contains
has_link-keys_of k [] h clear = refl
has_link-keys_of k (l ∷ links) h clear =
    ground (arith, same-link_key l k clear.0 h, has_link-keys_of k links h clear.1)

drop_link-AreClear :
    (k : CascadeLink) (links : List CascadeLink) → AreClear links → AreClear (drop_link k links)
unfolding drop_link
drop_link-AreClear k [] clear = tt
drop_link-AreClear k (l ∷ links) clear =
    if_lem AreClear (same_link l k) (drop_link k links) (l ∷ drop_link k links)
      (λ dropped. drop_link-AreClear k links clear.1)
      (λ kept. (clear.0, drop_link-AreClear k links clear.1))

keys_of-drop_link :
    (k : CascadeLink) (links : List CascadeLink)
    → IsClear k.source
    → AreClear links
    → keys_of (drop_link k links) ≡ remove_all (link_key k) (keys_of links)
unfolding keys_of drop_link remove_all
keys_of-drop_link k [] h clear = refl
keys_of-drop_link k (l ∷ links) h clear =
    ground (arith, same-link_key l k clear.0 h, keys_of-drop_link k links h clear.1)

record Agrees (links : List CascadeLink) (keys : List String) : Type 0 where
  clear : AreClear links
  same_keys : keys_of links ≡ keys

hear-Agrees :
    (room_id : String) (e : CascadeTreeEvent) (links : List CascadeLink) (keys : List String)
    → IsClearEvent e
    → Agrees links keys
    → Agrees (hear_link room_id e links) (hear room_id e keys)
unfolding hear hear_link keys_of
hear-Agrees room_id (link_created r l) links keys h v = elim (Bool-cases (r === room_id)) [
  | inl same ↦
      rw same (record { clear = (h, v.clear); same_keys = ap (λ ks. link_key l ∷ ks) v.same_keys })
  | inr other ↦ rw other v
]
hear-Agrees room_id (link_dropped r l) links keys h v = elim (Bool-cases (r === room_id)) [
  | inl same ↦ rw same (record {
    clear = drop_link-AreClear l links v.clear;
    same_keys = keys_of-drop_link l links h v.clear ∙ ap (remove_all (link_key l)) v.same_keys;
  })
  | inr other ↦ rw other v
]
hear-Agrees room_id (leaf_assigned r id slots) links keys h v = v
hear-Agrees room_id (capacity_shortfall r unmet) links keys h v = v
hear-Agrees room_id (tree_built r) links keys h v = v
hear-Agrees room_id (tree_dropped r) links keys h v = v
hear-Agrees room_id (origin_lost r id) links keys h v = v

follow-Agrees :
    (room_id : String) (es : List CascadeTreeEvent) (links : List CascadeLink) (keys : List String)
    → AreClearEvents es
    → Agrees links keys
    → Agrees (follow_links room_id es links) (follow room_id es keys)
unfolding follow follow_links
follow-Agrees room_id [] links keys h v = v
follow-Agrees room_id (e ∷ es) links keys h v =
    follow-Agrees room_id es _ _ h.1 (hear-Agrees room_id e links keys h.0 v)

-- Whatever is built, torn down or rebuilt after the loss of a node: as long as no link has started at a
-- node with a '>' in its id, who follows the link events of a room from the beginning believes in
-- exactly the links of the room's current tree, and in none when the room has no tree.
pub links_are_followed :
    (fanout viewers_per_node : ℕ) (cluster : List SfuNode) (t : CascadeTree) (room_id : String)
    (l : CascadeLink)
    → Reach (new_tree fanout viewers_per_node cluster) t
    → AreClearEvents t.events
    → AreClear (links_of (Map.get room_id t.rooms))
    → IsClear l.source
    → has_link l (follow_links room_id t.events [])
      ≡ has_link l (links_of (Map.get room_id t.rooms))
unfolding keys_of
links_are_followed fanout viewers_per_node cluster t room_id l path told held clear =
    let agree =
      follow-Agrees room_id t.events [] [] told (record { clear = tt; same_keys = refl }) in
    sym (has_link-keys_of l (follow_links room_id t.events []) clear agree.clear)
    ∙ ap (contains (link_key l)) agree.same_keys
    ∙ (Reach-IsFollowed fanout viewers_per_node cluster t path).believed room_id (link_key l)
    ∙ has_link-keys_of l (links_of (Map.get room_id t.rooms)) clear held

-- The link from `a` to a node named `b>c` and the link from one named `a>b` to `c` have the same key: when
-- the one takes the other's place, no event says so.
pub swap_is_missed :
    (room_id a b c : String)
    → diff room_id
        (record { source = a; target = b then ">" then c } ∷ [])
        (record { source = a then ">" then b; target = c } ∷ [])
      ≡ []
unfolding diff dropped_events created_events keys_of contains
swap_is_missed room_id a b c =
    let same : link_key (record { source = a; target = b then ">" then c })
        ≡ link_key (record { source = a then ">" then b; target = c }) =
      sym (
        append_assoc a (">" then b) (">" then c)
        ∙ ap (λ s. a then s) (append_assoc ">" b (">" then c))) in
    ground (arith, same_of_eq _ _ same, same_of_eq _ _ (sym same))
