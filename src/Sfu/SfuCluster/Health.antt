-- ===== src/Sfu/SfuCluster/Health.antt =====
-- Probes of one node: how many failures in a row it takes to mark it failed.
use rtcforge.Map
use rtcforge.Map.{Distinct, keys}
use rtcforge.Map.Laws.{get-set_self, set-Distinct, get-delete_self, delete-Distinct}
use rtcforge.Prelude.{
  ℕ, zero, suc, ◌+◌, Bool, true, false, ◌||◌, List, [], ◌∷◌, ◌++◌, Option, none, some, ◌≡◌, refl,
  sym, ap, subst, ◌∙◌, arith, leb, if_lem, get_elem?, replicate, number_key, text_key,
}
use rtcforge.Sfu.SfuNode.{SfuNode, mark_failed, is_empty}
use rtcforge.Sfu.SfuCluster.{
  SfuCluster, put_object, count_of, emit, all_nodes, reports, rebalance, on_health_result,
}

abbrev result_for : Option SfuNode → ℕ → Bool → SfuCluster → SfuCluster
result_for none o healthy c = c
result_for (some n) o healthy c = on_health_result o n healthy c

-- The results of the probes of a node object, one after the other.
unfoldable pub probes : ℕ → List Bool → SfuCluster → SfuCluster
probes o [] c = c
probes o (healthy ∷ rest) c = probes o rest (result_for (get_elem? c.objects o) o healthy c)

-- Some of the results end a row of failures of the given length, where `streak` came before.
abbrev pub reaches : ℕ → ℕ → List Bool → Bool
reaches threshold streak [] = false
reaches threshold streak (true ∷ rest) = reaches threshold 0 rest
reaches threshold streak (false ∷ rest) =
    leb threshold (streak + 1) || reaches threshold (streak + 1) rest

-- The object is registered with this streak of failures, and is not failed.
pub record IsAt (o : ℕ) (n : SfuNode) (streak : ℕ) (c : SfuCluster) : Type 0 where
  pub there : get_elem? c.objects o ≡ some n
  pub up : n.failed ≡ false
  pub row : count_of (Map.get n.id c.fail_streak) ≡ streak
  pub distinct : Distinct (keys c.fail_streak)

abbrev Unchanged : SfuCluster → SfuCluster → Type 0
Unchanged c d = (d.objects ≡ c.objects) × (d.events ≡ c.events) × (d.rebalanced ≡ c.rebalanced)

failed_once : ℕ → ℕ → SfuNode → SfuCluster → SfuCluster
failed_once o streak n c = record c {
  pass_streak = Map.delete n.id c.pass_streak;
  fail_streak = Map.set n.id (streak + 1) c.fail_streak;
}

failed_once-eq :
    (o streak : ℕ) (n : SfuNode) (c : SfuCluster)
    → IsAt o n streak c
    → leb c.failure_threshold (streak + 1) ≡ false
    → on_health_result o n false c ≡ failed_once o streak n c
unfolding on_health_result failed_once
failed_once-eq o streak n c v below = rw (v.row, below, v.up) refl

failed_once-IsAt :
    (o streak : ℕ) (n : SfuNode) (c : SfuCluster)
    → IsAt o n streak c
    → IsAt o n (streak + 1) (failed_once o streak n c)
unfolding failed_once
failed_once-IsAt o streak n c v = record {
  there = v.there;
  up = v.up;
  row = ap count_of (get-set_self n.id (streak + 1) c.fail_streak);
  distinct = set-Distinct n.id (streak + 1) c.fail_streak v.distinct;
}

passed_once : SfuNode → SfuCluster → SfuCluster
passed_once n c = record c { fail_streak = Map.delete n.id c.fail_streak }

passed_once-eq :
    (o : ℕ) (n : SfuNode) (c : SfuCluster)
    → n.failed ≡ false
    → on_health_result o n true c ≡ passed_once n c
unfolding on_health_result passed_once
passed_once-eq o n c up = rw up refl

passed_once-IsAt :
    (o streak : ℕ) (n : SfuNode) (c : SfuCluster) → IsAt o n streak c → IsAt o n 0 (passed_once n c)
unfolding passed_once
passed_once-IsAt o streak n c v = record {
  there = v.there;
  up = v.up;
  row = ap count_of (get-delete_self n.id c.fail_streak v.distinct);
  distinct = delete-Distinct n.id c.fail_streak v.distinct;
}

or_left : (a b : Bool) → (a || b) ≡ false → a ≡ false
or_left true b h = h
or_left false b h = refl

or_right : (a b : Bool) → (a || b) ≡ false → b ≡ false
or_right true b h = absurd (ground (arith, h))
or_right false b h = h

-- Any property of the state after the probes, from one of the state after the first.
first_probe :
    (P : SfuCluster → Type 0) (o : ℕ) (n : SfuNode) (healthy : Bool) (rest : List Bool)
    (c d : SfuCluster)
    → get_elem? c.objects o ≡ some n
    → on_health_result o n healthy c ≡ d
    → P (probes o rest d)
    → P (probes o (healthy ∷ rest) c)
unfolding probes
first_probe P o n healthy rest c d there e p =
    subst (λ t. P (probes o rest t)) (sym (ap (λ m. result_for m o healthy c) there ∙ e)) p

-- However the probes of a node that is not failed turn out: as long as no row of failures is as long
-- as the threshold, the failures counted before included, no node changes, and the cluster emits
-- nothing and asks for no rebalance.
pub short_rows_change_nothing :
    (o streak : ℕ) (n : SfuNode) (results : List Bool) (c : SfuCluster)
    → IsAt o n streak c
    → reaches c.failure_threshold streak results ≡ false
    → ((probes o results c).objects ≡ c.objects)
      × ((probes o results c).events ≡ c.events)
      × ((probes o results c).rebalanced ≡ c.rebalanced)
unfolding probes failed_once passed_once
short_rows_change_nothing o streak n [] c v short = (refl, refl, refl)
short_rows_change_nothing o streak n (true ∷ rest) c v short =
    first_probe (Unchanged c) o n true rest c (passed_once n c) v.there (passed_once-eq o n c v.up)
      (short_rows_change_nothing o 0 n rest (passed_once n c) (passed_once-IsAt o streak n c v)
        short)
short_rows_change_nothing o streak n (false ∷ rest) c v short =
    let below = or_left (leb c.failure_threshold (streak + 1)) _ short in
    first_probe (Unchanged c) o n false rest c (failed_once o streak n c) v.there
      (failed_once-eq o streak n c v below)
      (short_rows_change_nothing o (streak + 1) n rest (failed_once o streak n c)
        (failed_once-IsAt o streak n c v) (or_right (leb c.failure_threshold (streak + 1)) _ short))

rebalance-objects : (c : SfuCluster) → (rebalance c).objects ≡ c.objects
unfolding rebalance emit
rebalance-objects c =
    if_lem (λ (d : SfuCluster). d.objects ≡ c.objects) (is_empty (reports (all_nodes c)))
      (record c { rebalanced = c.rebalanced ++ reports (all_nodes c) }) _ (λ none'. refl)
      (λ some'. refl)

-- The failure that completes the row.
last_failure :
    (o streak : ℕ) (n : SfuNode) (c : SfuCluster)
    → IsAt o n streak c
    → leb c.failure_threshold (streak + 1) ≡ true
    → (on_health_result o n false c).objects ≡ put_object o (mark_failed n) c.objects
unfolding on_health_result emit
last_failure o streak n c v over = rw (v.row, over, v.up) (rebalance-objects _)

-- A row of failures that reaches the threshold marks the node failed, and no other.
pub full_row_marks_failed :
    (o streak left : ℕ) (n : SfuNode) (c : SfuCluster)
    → IsAt o n streak c
    → streak + suc left ≡ c.failure_threshold
    → (probes o (replicate (suc left) false) c).objects ≡ put_object o (mark_failed n) c.objects
unfolding probes failed_once
full_row_marks_failed o streak zero n c v full =
    first_probe (λ (d : SfuCluster). d.objects ≡ put_object o (mark_failed n) c.objects) o n false
      [] c _ v.there refl (last_failure o streak n c v (ground (arith, full)))
full_row_marks_failed o streak (suc left) n c v full =
    first_probe (λ (d : SfuCluster). d.objects ≡ put_object o (mark_failed n) c.objects) o n false
      (replicate (suc left) false) c (failed_once o streak n c) v.there
      (failed_once-eq o streak n c v (ground (arith, full)))
      (full_row_marks_failed o (streak + 1) left n (failed_once o streak n c)
        (failed_once-IsAt o streak n c v) (omega (arith, full)))
