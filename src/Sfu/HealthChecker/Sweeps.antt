-- ===== src/Sfu/HealthChecker/Sweeps.antt =====
-- Which probes of a node are under way at once.
use rtcforge.Map.{contains, Distinct, Distinct-append, contains-append}
use rtcforge.Map.Filters.{Distinct-filter_by}
use rtcforge.Prelude.{
  OnSome, this, other, ℕ, zero, suc, ◌<◌, ltb, Bool, true, false, not, ◌||◌, List, [], ◌∷◌, ◌++◌,
  some, String, ◌≡◌, refl, sym, ap, subst, ◌∙◌, arith, if◌then◌else◌, if_lem, inl, inr, Bool-cases,
  filter_by, get_elem?, eq_of_same, same_self, text_key, number_key,
}
use rtcforge.Sfu.SfuNode.{SfuNode}
use rtcforge.Sfu.SfuCluster.{SfuCluster, all_nodes}
use rtcforge.Sfu.HealthChecker.{
  Probe, HealthChecker, new_checker, start, stop, tick_over, tick, is_other, probe_done, remove_at,
  make_late_at, check_settled, probe_timed_out,
}

-- The cluster may be any at each sweep.
pub data Step (h : HealthChecker) : HealthChecker → Type 0 where
  starts : Step h (start h)
  stops : Step h (stop h)
  ticks : (c : SfuCluster) → Step h (tick c h)
  settles :
      (i : ℕ) (p : Probe) (healthy : Bool) (c : SfuCluster)
      → get_elem? h.probes i ≡ some p
      → Step h (check_settled i p healthy c h).1
  times_out :
      (i : ℕ) (p : Probe) (c : SfuCluster)
      → get_elem? h.probes i ≡ some p
      → Step h (probe_timed_out i p c h).1

pub data Reach (h : HealthChecker) : HealthChecker → Type 0 where
  here : Reach h h
  next : {g k : HealthChecker} → Reach h g → Step g k → Reach h k

-- The nodes that are asked by a probe whose promise has not settled.
abbrev pub asked : List Probe → List String
asked [] = []
asked (p ∷ ps) = let rest = asked ps in if p.late then rest else p.node_id ∷ rest

asked-append :
    (ps : List Probe) (p : Probe)
    → p.late ≡ false
    → asked (ps ++ (p ∷ [])) ≡ asked ps ++ (p.node_id ∷ [])
asked-append [] p timely = rw timely refl
asked-append (q ∷ ps) p timely = ground (arith, asked-append ps p timely)

filter_by-fresh :
    (id : String) (xs : List String) → contains id xs ≡ false → filter_by (is_other id) xs ≡ xs
unfolding contains
filter_by-fresh id [] fresh = refl
filter_by-fresh id (x ∷ xs) fresh =
    ground (arith, fresh, filter_by-fresh id xs, eq_of_same id x, same_self x)

contains-asked :
    (i : ℕ) (ps : List Probe) (p : Probe)
    → get_elem? ps i ≡ some p
    → p.late ≡ false
    → contains p.node_id (asked ps) ≡ true
unfolding contains
contains-asked i [] p at timely = absurd (ground (arith, at))
contains-asked zero (q ∷ ps) p at timely = ground (arith, at, timely, same_self p.node_id)
contains-asked (suc i) (q ∷ ps) p at timely = ground (arith, contains-asked i ps p at timely)

asked-timely :
    (q : Probe) (ps : List Probe) → q.late ≡ false → asked (q ∷ ps) ≡ q.node_id ∷ asked ps
asked-timely q ps timely = rw timely refl

asked-late : (q : Probe) (ps : List Probe) → q.late ≡ true → asked (q ∷ ps) ≡ asked ps
asked-late q ps late = rw late refl

asked-remove_at :
    (i : ℕ) (ps : List Probe) (p : Probe)
    → get_elem? ps i ≡ some p
    → p.late ≡ false
    → Distinct (asked ps)
    → asked (remove_at i ps) ≡ filter_by (is_other p.node_id) (asked ps)
unfolding remove_at
asked-remove_at i [] p at timely d = absurd (ground (arith, at))
asked-remove_at zero (q ∷ ps) p at timely d =
    let same : q.late ≡ false = ground (arith, at, timely) in
    let d' = subst Distinct (asked-timely q ps same) d in
    ground (arith, at, same, d'.0, filter_by-fresh q.node_id (asked ps) d'.0, same_self q.node_id)
asked-remove_at (suc i) (q ∷ ps) p at timely d = elim (Bool-cases q.late) [
  | inl late ↦
      asked-late q (remove_at i ps) late
      ∙ asked-remove_at i ps p at timely (subst Distinct (asked-late q ps late) d)
      ∙ sym (ap (filter_by (is_other p.node_id)) (asked-late q ps late))
  | inr early ↦
      let d' = subst Distinct (asked-timely q ps early) d in
      let ih = asked-remove_at i ps p at timely d'.1 in
      asked-timely q (remove_at i ps) early
      ∙ ground (arith, ih, d'.0, contains-asked i ps p at timely, eq_of_same p.node_id q.node_id)
      ∙ sym (ap (filter_by (is_other p.node_id)) (asked-timely q ps early))
]

asked-remove_late :
    (i : ℕ) (ps : List Probe) (p : Probe)
    → get_elem? ps i ≡ some p
    → p.late ≡ true
    → asked (remove_at i ps) ≡ asked ps
unfolding remove_at
asked-remove_late i [] p at late = absurd (ground (arith, at))
asked-remove_late zero (q ∷ ps) p at late = ground (arith, at, late)
asked-remove_late (suc i) (q ∷ ps) p at late =
    ap (λ ids. if q.late then ids else q.node_id ∷ ids) (asked-remove_late i ps p at late)

asked-make_late_at :
    (i : ℕ) (ps : List Probe) (p : Probe)
    → get_elem? ps i ≡ some p
    → p.late ≡ false
    → asked (make_late_at i ps) ≡ asked (remove_at i ps)
unfolding make_late_at remove_at
asked-make_late_at i [] p at timely = absurd (ground (arith, at))
asked-make_late_at zero (q ∷ ps) p at timely = refl
asked-make_late_at (suc i) (q ∷ ps) p at timely =
    ap (λ ids. if q.late then ids else q.node_id ∷ ids) (asked-make_late_at i ps p at timely)

record IsSingle (h : HealthChecker) : Type 0 where
  listed : h.in_flight ≡ asked h.probes
  distinct : Distinct h.in_flight

tick_over-IsSingle :
    (ns : List (ℕ × SfuNode)) (h : HealthChecker) → IsSingle h → IsSingle (tick_over ns h)
unfolding tick_over
tick_over-IsSingle [] h v = v
tick_over-IsSingle ((o, n) ∷ ns) h v = tick_over-IsSingle ns _ (
    if_lem IsSingle (n.draining || contains n.id h.in_flight) h _ (λ skipped. v)
      (λ begun. record {
        listed = ap (λ ids. ids ++ (n.id ∷ [])) v.listed ∙ sym (asked-append h.probes _ refl);
        distinct = Distinct-append n.id h.in_flight (ground (arith, begun)) v.distinct;
      }))

-- The probe `p` no longer counts among the unsettled ones.
done-IsSingle :
    (p : Probe) (healthy : Bool) (ps : List Probe) (c : SfuCluster) (h : HealthChecker)
    → asked ps ≡ filter_by (is_other p.node_id) (asked h.probes)
    → IsSingle h
    → IsSingle (probe_done p healthy c (record h { probes = ps })).1
unfolding probe_done
done-IsSingle p healthy ps c h without v = record {
  listed = ap (filter_by (is_other p.node_id)) v.listed ∙ sym without;
  distinct = Distinct-filter_by (is_other p.node_id) h.in_flight v.distinct;
}

settled-IsSingle :
    (i : ℕ) (p : Probe) (healthy : Bool) (c : SfuCluster) (h : HealthChecker)
    → get_elem? h.probes i ≡ some p
    → IsSingle h
    → IsSingle (check_settled i p healthy c h).1
unfolding check_settled
settled-IsSingle i p healthy c h at v = elim (Bool-cases p.late) [
  | inl late ↦ rw late (record {
    listed = v.listed ∙ sym (asked-remove_late i h.probes p at late);
    distinct = v.distinct;
  })
  | inr timely ↦
      let d = subst Distinct v.listed v.distinct in
      rw timely (
        done-IsSingle p healthy (remove_at i h.probes) c h
          (asked-remove_at i h.probes p at timely d) v)
]

timed_out-IsSingle :
    (i : ℕ) (p : Probe) (c : SfuCluster) (h : HealthChecker)
    → get_elem? h.probes i ≡ some p
    → IsSingle h
    → IsSingle (probe_timed_out i p c h).1
unfolding probe_timed_out
timed_out-IsSingle i p c h at v = elim (Bool-cases (not (ltb 0 h.timeout_ms) || p.late)) [
  | inl idle ↦ rw idle v
  | inr fires ↦
      let d = subst Distinct v.listed v.distinct in
      let timely : p.late ≡ false = ground (arith, fires) in
      rw fires (
        done-IsSingle p false (make_late_at i h.probes) c h
          (asked-make_late_at i h.probes p at timely ∙ asked-remove_at i h.probes p at timely d) v)
]

Step-IsSingle : {h g : HealthChecker} → Step h g → IsSingle h → IsSingle g
unfolding start stop tick
Step-IsSingle {h} starts v =
    if_lem IsSingle h.timer h _ (λ on. v)
      (λ off. record { listed = v.listed; distinct = v.distinct })
Step-IsSingle {h} stops v = record { listed = v.listed; distinct = v.distinct }
Step-IsSingle {h} (ticks c) v = tick_over-IsSingle (all_nodes c) h v
Step-IsSingle {h} (settles i p healthy c at) v = settled-IsSingle i p healthy c h at v
Step-IsSingle {h} (times_out i p c at) v = timed_out-IsSingle i p c h at v

Reach-IsSingle :
    (timeout_ms : ℕ) {h : HealthChecker} → Reach (new_checker timeout_ms) h → IsSingle h
unfolding new_checker
Reach-IsSingle timeout_ms here = record { listed = refl; distinct = tt }
Reach-IsSingle timeout_ms (next path step) = Step-IsSingle step (Reach-IsSingle timeout_ms path)

-- Whatever sweeps, ends of `onCheck` calls and timeouts happen, in any order, and however the cluster
-- changes meanwhile: no two probes whose promises have not settled ask the same node, and `_inFlight` is
-- exactly the nodes that they ask. Of the calls of `onCheck` that run for a node, all but one at most
-- have thus been timed out.
pub one_probe_at_a_time :
    (timeout_ms : ℕ) (h : HealthChecker)
    → Reach (new_checker timeout_ms) h
    → Distinct (asked h.probes) × (h.in_flight ≡ asked h.probes)
one_probe_at_a_time timeout_ms h path =
    let v = Reach-IsSingle timeout_ms path in (subst Distinct v.listed v.distinct, v.listed)

begun-in_flight :
    (id : String) (b : Bool) (n : SfuNode) (h : HealthChecker) (ps : List Probe)
    → contains id h.in_flight ≡ true
    → contains id
        (if b
          then h
          else record h { in_flight = h.in_flight ++ (n.id ∷ []); probes = ps }).in_flight
      ≡ true
begun-in_flight id b n h ps there =
    ground (arith, there, contains-append id h.in_flight (n.id ∷ []))

tick_over-in_flight :
    (id : String) (ns : List (ℕ × SfuNode)) (h : HealthChecker)
    → contains id h.in_flight ≡ true
    → contains id (tick_over ns h).in_flight ≡ true
unfolding tick_over
tick_over-in_flight id [] h there = there
tick_over-in_flight id ((o, n) ∷ ns) h there =
    tick_over-in_flight id ns _
      (begun-in_flight id (n.draining || contains n.id h.in_flight) n h _ there)

-- The node is among those that are looked at, and not draining.
abbrev pub IsProbed : String → List (ℕ × SfuNode) → Type 0
IsProbed id ns = OnSome (λ (e : ℕ × SfuNode). (e.1.id ≡ id) × (e.1.draining ≡ false)) ns

tick_over-asks :
    (id : String) (ns : List (ℕ × SfuNode)) (h : HealthChecker)
    → IsProbed id ns
    → contains id (tick_over ns h).in_flight ≡ true
unfolding tick_over contains
tick_over-asks id [] h probed = elim probed [ ]
tick_over-asks id ((o, n) ∷ ns) h (this (named, live)) =
    tick_over-in_flight id ns _
      (ground (arith, named, live, contains-append n.id h.in_flight (n.id ∷ []), same_self n.id))
tick_over-asks id ((o, n) ∷ ns) h (other more) = tick_over-asks id ns _ more

get_elem?-append_one :
    (i : ℕ) (ps : List Probe) (p q : Probe)
    → get_elem? ps i ≡ some p
    → get_elem? (ps ++ (q ∷ [])) i ≡ some p
get_elem?-append_one i [] p q at = absurd (ground (arith, at))
get_elem?-append_one zero (r ∷ ps) p q at = at
get_elem?-append_one (suc i) (r ∷ ps) p q at = get_elem?-append_one i ps p q at

tick_over-keeps :
    (i : ℕ) (p : Probe) (ns : List (ℕ × SfuNode)) (h : HealthChecker)
    → get_elem? h.probes i ≡ some p
    → get_elem? (tick_over ns h).probes i ≡ some p
unfolding tick_over
tick_over-keeps i p [] h at = at
tick_over-keeps i p ((o, n) ∷ ns) h at = tick_over-keeps i p ns _ (
    if_lem (λ (g : HealthChecker). get_elem? g.probes i ≡ some p)
      (n.draining || contains n.id h.in_flight) h _ (λ skipped. at)
      (λ begun. get_elem?-append_one i h.probes p _ at))

get_elem?-make_late_at :
    (i : ℕ) (ps : List Probe) (p : Probe)
    → get_elem? ps i ≡ some p
    → get_elem? (make_late_at i ps) i ≡ some (record p { late = true })
unfolding make_late_at
get_elem?-make_late_at i [] p at = absurd (ground (arith, at))
get_elem?-make_late_at zero (q ∷ ps) p at = ground (arith, at)
get_elem?-make_late_at (suc i) (q ∷ ps) p at = get_elem?-make_late_at i ps p at

-- With a timeout, a probe that times out leaves its call of `onCheck` running, and the next sweep over a
-- cluster in which the node is registered and not draining asks the node once more: the late call and
-- one whose promise has not settled then run at once.
pub asked_again :
    (timeout_ms i : ℕ) (p : Probe) (c d : SfuCluster) (h : HealthChecker)
    → Reach (new_checker timeout_ms) h
    → 0 < h.timeout_ms
    → get_elem? h.probes i ≡ some p
    → p.late ≡ false
    → IsProbed p.node_id (all_nodes d)
    → (get_elem? (tick d (probe_timed_out i p c h).1).probes i ≡ some (record p { late = true }))
      × (contains p.node_id (asked (tick d (probe_timed_out i p c h).1).probes) ≡ true)
unfolding tick probe_timed_out probe_done
asked_again timeout_ms i p c d h path timed at timely probed =
    let g = (probe_timed_out i p c h).1 in
    let fires : (not (ltb 0 h.timeout_ms) || p.late) ≡ false = ground (arith, timed, timely) in
    let late : get_elem? g.probes i ≡ some (record p { late = true }) =
      rw fires (get_elem?-make_late_at i h.probes p at) in
    let single =
      tick_over-IsSingle (all_nodes d) g
        (timed_out-IsSingle i p c h at (Reach-IsSingle timeout_ms path)) in
    (
      tick_over-keeps i _ (all_nodes d) g late,
      ap (contains p.node_id) (sym single.listed) ∙ tick_over-asks p.node_id (all_nodes d) g probed,
    )
