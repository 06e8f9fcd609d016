-- ===== src/Sfu/NodeFailureTracker/Once.antt =====
-- A node that is lost is reported once.
use rtcforge.Map
use rtcforge.Map.{contains, contains-append}
use rtcforge.Map.Filters.{contains-filter_by, count, count-append, same_symm}
use rtcforge.Prelude.{
  ℕ, ◌+◌, Bool, true, false, not, ◌&&◌, List, [], ◌∷◌, ◌++◌, String, ◌≡◌, sym, ap, ◌∙◌, arith,
  ◌===◌, if_lem, Bool-cases, inl, inr, all, eq_of_same, text_key, number_key,
}
use rtcforge.Sfu.SfuNode.{SfuNode}
use rtcforge.Sfu.NodeFailureTracker.{
  NodeFailureTracker, fire_gone, is_not, forgive, attach, detach, node_removed, node_failed,
  node_recovered,
}

-- What a tracker hears.
pub data Notice : Type 0 where
  added : ℕ → String → Notice
  removed : SfuNode → Notice
  failed : String → Notice
  recovered : String → Notice

abbrev pub hear : Notice → NodeFailureTracker → NodeFailureTracker
hear (added o id) = attach o id
hear (removed n) = node_removed n
hear (failed id) = node_failed id
hear (recovered id) = node_recovered id

unfoldable pub hear_all : List Notice → NodeFailureTracker → NodeFailureTracker
hear_all [] t = t
hear_all (e ∷ es) t = hear_all es (hear e t)

-- The notice neither adds the node again nor says that it has recovered.
abbrev pub spares : String → Notice → Bool
spares id (added o other) = not (id === other)
spares id (recovered other) = not (id === other)
spares id _ = true

abbrev pub one_if : Bool → ℕ
one_if true = 1
one_if false = 0

-- The node was reported `base` times, and once more if it counts as gone.
abbrev Counted : String → ℕ → List String → List String → Type 0
Counted id base gone lost = count id lost ≡ base + one_if (contains id gone)

abbrev IsCounted : String → ℕ → NodeFailureTracker → Type 0
IsCounted id base t = Counted id base t.gone t.lost

module _ (id : String) (base : ℕ) where
  fired-Counted :
      (other : String) (t : NodeFailureTracker)
      → IsCounted id base t
      → contains other t.gone ≡ false
      → Counted id base (t.gone ++ (other ∷ [])) (t.lost ++ (other ∷ []))
  unfolding contains
  fired-Counted other t v new = elim (Bool-cases (other === id)) [
    | inl same ↦
        let before = ap (λ i. contains i t.gone) (eq_of_same other id same) in
        ground (
          arith,
          v,
          count-append id other t.lost,
          contains-append id t.gone (other ∷ []),
          same,
          new,
          before,
        )
    | inr differ ↦
        ground
          (arith, v, count-append id other t.lost, contains-append id t.gone (other ∷ []), differ)
  ]

  fire_gone-IsCounted :
      (other : String) (t : NodeFailureTracker)
      → IsCounted id base t
      → IsCounted id base (fire_gone other t)
  unfolding fire_gone
  fire_gone-IsCounted other t v =
      if_lem (IsCounted id base) (contains other t.gone) t _ (λ known. v)
        (λ new. fired-Counted other t v new)

  forgive-IsCounted :
      (other : String) (t : NodeFailureTracker)
      → (id === other) ≡ false
      → IsCounted id base t
      → IsCounted id base (forgive other t)
  unfolding forgive
  forgive-IsCounted other t ne v =
      v ∙ ap (λ b. base + one_if b) (sym (contains-filter_by id (is_not other) t.gone ∙ kept))
    where
      kept : (contains id t.gone && is_not other id) ≡ contains id t.gone
      kept = ground (arith, same_symm id other ne)

  attach-IsCounted :
      (o : ℕ) (other : String) (t : NodeFailureTracker)
      → (id === other) ≡ false
      → IsCounted id base t
      → IsCounted id base (attach o other t)
  unfolding attach
  attach-IsCounted o other t ne v =
      if_lem (IsCounted id base) (Map.has other t.listeners) t _ (λ known. v)
        (λ new. forgive-IsCounted other t ne v)

  hear-IsCounted :
      (e : Notice) (t : NodeFailureTracker)
      → spares id e ≡ true
      → IsCounted id base t
      → IsCounted id base (hear e t)
  unfolding node_removed node_failed node_recovered detach
  hear-IsCounted (added o other) t spared v = attach-IsCounted o other t (ground (arith, spared)) v
  hear-IsCounted (removed n) t spared v =
      if_lem (IsCounted id base) (not n.draining) (fire_gone n.id (detach n.id t)) (detach n.id t)
        (λ lost. fire_gone-IsCounted n.id (detach n.id t) v) (λ left. v)
  hear-IsCounted (failed other) t spared v =
      if_lem (IsCounted id base) (Map.has other t.listeners) (fire_gone other t) t
        (λ heard. fire_gone-IsCounted other t v) (λ deaf. v)
  hear-IsCounted (recovered other) t spared v =
      if_lem (IsCounted id base) (Map.has other t.listeners) (forgive other t) t
        (λ heard. forgive-IsCounted other t (ground (arith, spared)) v) (λ deaf. v)

  hear_all-IsCounted :
      (es : List Notice) (t : NodeFailureTracker)
      → all (spares id) es ≡ true
      → IsCounted id base t
      → IsCounted id base (hear_all es t)
  unfolding hear_all
  hear_all-IsCounted [] t spared v = v
  hear_all-IsCounted (e ∷ es) t spared v =
      hear_all-IsCounted es (hear e t) (ground (arith, spared))
        (hear-IsCounted e t (ground (arith, spared)) v)

-- From a state where a node does not count as gone, and until it is added again or says that it has
-- recovered: whatever the tracker hears of this and other nodes, in any order, it reports the node
-- once if it then counts as gone, and not at all otherwise.
pub gone_is_reported_once :
    (id : String) (es : List Notice) (t : NodeFailureTracker)
    → contains id t.gone ≡ false
    → all (spares id) es ≡ true
    → count id (hear_all es t).lost ≡ count id t.lost + one_if (contains id (hear_all es t).gone)
gone_is_reported_once id es t present spared =
    hear_all-IsCounted id (count id t.lost) es t spared (ground (arith, present))
