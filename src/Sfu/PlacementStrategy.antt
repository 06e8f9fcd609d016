-- ===== src/Sfu/PlacementStrategy.antt =====
-- packages/sfu/src/PlacementStrategy.ts: the choice of a node for a room. A candidate is a node object,
-- with its number.
pub mod Least
use rtcforge.Prelude.{
  ℕ, Bool, true, false, not, List, [], ◌∷◌, Option, none, some, String, ltb, ◌===◌, if◌then◌else◌,
  filter_by, text_key,
}
use rtcforge.Sfu.SfuNode.{SfuNode, is_empty}

abbrev pub is_in : String → ℕ × SfuNode → Bool
is_in region n = n.1.region === region

-- A region that is given, and is not the empty text.
abbrev pub named : Option String → Option String
named none = none
named (some region) = if region === "" then none else some region

abbrev pub pool_in : List (ℕ × SfuNode) → Option String → List (ℕ × SfuNode)
pool_in candidates none = candidates
pool_in candidates (some region) =
    let regional = filter_by (is_in region) candidates in
    if is_empty regional then candidates else regional

unfoldable pub regional_pool : List (ℕ × SfuNode) → Option String → List (ℕ × SfuNode)
regional_pool candidates region = pool_in candidates (named region)

-- The `reduce` of the least load, from the first node on.
unfoldable pub least : ℕ × SfuNode → List (ℕ × SfuNode) → ℕ × SfuNode
least min [] = min
least min (n ∷ ns) = least (if ltb n.1.load min.1.load then n else min) ns

abbrev pub least_of : List (ℕ × SfuNode) → Option (ℕ × SfuNode)
least_of [] = none
least_of (n ∷ ns) = some (least n ns)

-- `LeastLoadedStrategy.select`
unfoldable pub select_least :
    List (ℕ × SfuNode) → Option String → Option String → Option (ℕ × SfuNode)
unfolding regional_pool least
select_least candidates region key =
    if is_empty candidates then none else least_of (regional_pool candidates region)
