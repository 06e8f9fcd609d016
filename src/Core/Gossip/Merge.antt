-- ===== src/Core/Gossip/Merge.antt =====
-- Merging as a join: what a node believes of another node does not depend on the order of arrival.
use rtcforge.Map
use rtcforge.Map.Laws.{get-set}
use rtcforge.Prelude.{
  ℕ, Bool, true, false, ◌&&◌, ◌||◌, List, [], ◌∷◌, Option, none, some, String, ◌≡◌, ◌≢◌, refl, sym,
  ap, ◌∙◌, inl, inr, arith, ltb, ◌==◌, ◌===◌, if◌then◌else◌, text_key, Bool-cases, Option-cases,
  eq_of_same, same_of_ne,
}
use rtcforge.Core.Gossip.Entries.{GossipEntry, MemberRecord, RawEntry, add_one, valid_entry}
use rtcforge.Core.Gossip.{
  Gossip, entry_info, merge_self, merge_other, merge_valid, merge, merge_all, on_receive,
}

-- What the protocol reconciles on.
pub record View : Type 0 where
  pub incarnation : ℕ
  pub alive : Bool

abbrev pub record_view : MemberRecord → View
record_view r = record { incarnation = r.incarnation; alive = r.alive }

abbrev pub entry_view : GossipEntry → View
entry_view e = record { incarnation = e.incarnation; alive = e.alive }

abbrev pub found_view : Option MemberRecord → Option View
found_view none = none
found_view (some r) = some (record_view r)

-- What a node believes of the node `id`.
abbrev pub view : String → Gossip → Option View
view id g = found_view (Map.get id g.members)

-- The join: the higher incarnation wins, and at equal incarnations death wins.
abbrev pub absorb : Option View → View → View
absorb none e = e
absorb (some v) e =
    if ltb v.incarnation e.incarnation
    then e
    else if e.incarnation == v.incarnation
    then record v { alive = v.alive && e.alive }
    else v

absorb_comm :
    (o : Option View) (a b : View) → absorb (some (absorb o a)) b ≡ absorb (some (absorb o b)) a
absorb_comm none a b = ground arith
absorb_comm (some v) a b = ground arith

absorb_idem : (o : Option View) (a : View) → absorb (some (absorb o a)) a ≡ absorb o a
absorb_idem none a = ground arith
absorb_idem (some v) a = ground arith

-- What an entry about `id`, if it is valid, makes of the view of `id`.
abbrev pub absorb_entry : String → Option GossipEntry → Option View → Option View
absorb_entry id none o = o
absorb_entry id (some e) o = if e.id === id then some (absorb o (entry_view e)) else o

get_at :
    (a id : String) (o : Option MemberRecord) (g : Gossip)
    → (a === id) ≡ true
    → Map.get a g.members ≡ o
    → view id g ≡ found_view o
get_at a id o g same found = ground (arith, eq_of_same a id same)

view-set :
    (a id : String) (r : MemberRecord) (g : Gossip)
    → found_view (Map.get id (Map.set a r g.members))
      ≡ (if a === id then some (record_view r) else view id g)
view-set a id r g = ground (arith, get-set a id r g.members)

view-merge_other :
    (now : ℕ) (e : GossipEntry) (id : String) (o : Option MemberRecord) (g : Gossip)
    → Map.get e.id g.members ≡ o
    → view id (merge_other now e o g).0 ≡ absorb_entry id (some e) (view id g)
unfolding merge_other
view-merge_other now e id none g found = ground (
  arith,
  view-set e.id id
      (record {
        info = entry_info e;
        address = e.address;
        incarnation = e.incarnation;
        alive = e.alive;
        last_seen = now;
      })
      g,
  get_at e.id id none g,
)
view-merge_other now e id (some known) g found = ground (
  arith,
  view-set e.id id (record known { alive = false; last_seen = now }) g,
  view-set e.id id
      (record {
        info = entry_info e;
        address = e.address;
        incarnation = e.incarnation;
        alive = e.alive;
        last_seen = now;
      })
      g,
  get_at e.id id (some known) g,
)

view-merge_self :
    (now : ℕ) (e : GossipEntry) (id : String) (o : Option MemberRecord) (g : Gossip)
    → (g.self_info.id === id) ≡ false
    → view id (merge_self now e o g) ≡ view id g
unfolding merge_self
view-merge_self now e id none g other = refl
view-merge_self now e id (some rec) g other = ground (
  arith,
  view-set g.self_info.id id
      (record rec { incarnation = add_one e.incarnation; alive = true; last_seen = now }) g,
)

other_entry :
    (a self id : String) → (a === self) ≡ true → (self === id) ≡ false → (a === id) ≡ false
other_entry a self id same other = ground (arith, eq_of_same a self same)

view-merge_valid :
    (now : ℕ) (e : GossipEntry) (id : String) (g : Gossip)
    → (g.self_info.id === id) ≡ false
    → view id (merge_valid now e g).0 ≡ absorb_entry id (some e) (view id g)
unfolding merge_valid
view-merge_valid now e id g other = elim (Bool-cases (e.id === g.self_info.id)) [
  | inl self ↦
      rw (self, other_entry e.id g.self_info.id id self other)
        (view-merge_self now e id (Map.get g.self_info.id g.members) g other)
  | inr away ↦ rw away (view-merge_other now e id (Map.get e.id g.members) g refl)
]

-- Merging an entry joins it to what is believed of the node that it is about, and leaves what is
-- believed of every other node but the receiver.
pub view-merge :
    (now : ℕ) (raw : RawEntry) (id : String) (g : Gossip)
    → (g.self_info.id === id) ≡ false
    → view id (merge now raw g).0 ≡ absorb_entry id (valid_entry raw) (view id g)
unfolding merge
view-merge now raw id g other = elim (Option-cases (valid_entry raw)) [
  | inl bad ↦ rw bad
  | inr (e, good) ↦ rw good (view-merge_valid now e id g other)
]

merge-self_info :
    (now : ℕ) (raw : RawEntry) (g : Gossip) → (merge now raw g).0.self_info ≡ g.self_info
unfolding merge
merge-self_info now raw g = ground arith

absorb_entry_comm :
    (id : String) (a b : Option GossipEntry) (o : Option View)
    → absorb_entry id b (absorb_entry id a o) ≡ absorb_entry id a (absorb_entry id b o)
absorb_entry_comm id none b o = refl
absorb_entry_comm id (some a) none o = refl
absorb_entry_comm id (some a) (some b) o =
    ground (arith, absorb_comm o (entry_view a) (entry_view b))

absorb_entry_idem :
    (id : String) (a : Option GossipEntry) (o : Option View)
    → absorb_entry id a (absorb_entry id a o) ≡ absorb_entry id a o
absorb_entry_idem id none o = refl
absorb_entry_idem id (some a) o = ground (arith, absorb_idem o (entry_view a))

-- What the entries of a message make of the view of `id`, one after the other.
abbrev pub absorb_all : String → List RawEntry → Option View → Option View
absorb_all id [] o = o
absorb_all id (raw ∷ raws) o = absorb_all id raws (absorb_entry id (valid_entry raw) o)

absorb_all_entry :
    (id : String) (a : Option GossipEntry) (raws : List RawEntry) (o : Option View)
    → absorb_all id raws (absorb_entry id a o) ≡ absorb_entry id a (absorb_all id raws o)
absorb_all_entry id a [] o = refl
absorb_all_entry id a (raw ∷ raws) o =
    ap (absorb_all id raws) (absorb_entry_comm id a (valid_entry raw) o)
    ∙ absorb_all_entry id a raws (absorb_entry id (valid_entry raw) o)

absorb_all_comm :
    (id : String) (xs ys : List RawEntry) (o : Option View)
    → absorb_all id ys (absorb_all id xs o) ≡ absorb_all id xs (absorb_all id ys o)
absorb_all_comm id [] ys o = refl
absorb_all_comm id (x ∷ xs) ys o =
    absorb_all_comm id xs ys (absorb_entry id (valid_entry x) o)
    ∙ ap (absorb_all id xs) (absorb_all_entry id (valid_entry x) ys o)

absorb_all_idem :
    (id : String) (xs : List RawEntry) (o : Option View)
    → absorb_all id xs (absorb_all id xs o) ≡ absorb_all id xs o
absorb_all_idem id [] o = refl
absorb_all_idem id (x ∷ xs) o =
    ap (absorb_all id xs) (
      sym (absorb_all_entry id (valid_entry x) xs (absorb_entry id (valid_entry x) o))
      ∙ ap (absorb_all id xs) (absorb_entry_idem id (valid_entry x) o))
    ∙ absorb_all_idem id xs (absorb_entry id (valid_entry x) o)

view-merge_all :
    (now : ℕ) (raws : List RawEntry) (id : String) (g : Gossip) (changed : Bool)
    → (g.self_info.id === id) ≡ false
    → (view id (merge_all now raws g changed).0 ≡ absorb_all id raws (view id g))
      × ((merge_all now raws g changed).0.self_info ≡ g.self_info)
unfolding merge_all
view-merge_all now [] id g changed other = (refl, refl)
view-merge_all now (raw ∷ raws) id g changed other =
    let same = merge-self_info now raw g in
    let (seen, kept) =
      view-merge_all now raws id (merge now raw g).0 ((merge now raw g).1 || changed)
        (ap (λ info. info.id === id) same ∙ other) in
    (seen ∙ ap (absorb_all id raws) (view-merge now raw id g other), kept ∙ same)

view-on_receive :
    (now : ℕ) (raws : List RawEntry) (id : String) (g : Gossip)
    → (g.self_info.id === id) ≡ false
    → (view id (on_receive now (some raws) g) ≡ absorb_all id raws (view id g))
      × ((on_receive now (some raws) g).self_info ≡ g.self_info)
unfolding on_receive
view-on_receive now raws id g other = ground (arith, view-merge_all now raws id g false other)

-- Two messages make a node believe the same of every other node, whichever comes first and however
-- often they are repeated.
pub on_receive_converges :
    (t u : ℕ) (xs ys : List RawEntry) (id : String) (g : Gossip)
    → g.self_info.id ≢ id
    → (view id (on_receive u (some ys) (on_receive t (some xs) g))
        ≡ view id (on_receive u (some xs) (on_receive t (some ys) g)))
      × (view id (on_receive u (some xs) (on_receive t (some xs) g))
          ≡ view id (on_receive t (some xs) g))
on_receive_converges t u xs ys id g ne =
    let other = same_of_ne g.self_info.id id ne in
    let (seen_x, self_x) = view-on_receive t xs id g other in
    let (seen_y, self_y) = view-on_receive t ys id g other in
    let x_then_y =
      view-on_receive u ys id (on_receive t (some xs) g)
        (ap (λ info. info.id === id) self_x ∙ other) in
    let y_then_x =
      view-on_receive u xs id (on_receive t (some ys) g)
        (ap (λ info. info.id === id) self_y ∙ other) in
    let x_then_x =
      view-on_receive u xs id (on_receive t (some xs) g)
        (ap (λ info. info.id === id) self_x ∙ other) in
    (
      x_then_y.0
          ∙ ap (absorb_all id ys) seen_x
          ∙ absorb_all_comm id xs ys (view id g)
          ∙ ap (absorb_all id xs) (sym seen_y)
          ∙ sym (y_then_x.0),
      x_then_x.0 ∙ ap (absorb_all id xs) seen_x ∙ absorb_all_idem id xs (view id g) ∙ sym seen_x,
    )
