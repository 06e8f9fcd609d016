-- ===== src/Tests/Cluster.antt =====
-- A cluster of two nodes of one region, of which the second has less load.
use rtcforge.Map.{contains, Distinct, has, set, get}
use rtcforge.Map.Filters.{count}
use rtcforge.Prelude.{
  ◌+◌, Bool, true, false, List, [], ◌∷◌, none, some, ◌≡◌, refl, replicate, get_elem?, text_key,
  number_key,
}
use rtcforge.Sfu.SfuNode.{SfuNode, new_node, report_load, mark_failed}
use rtcforge.Sfu.PlacementStrategy.{select_least}
use rtcforge.Sfu.SfuCluster.{SfuCluster, put_object, all_nodes, add_node, assign_node}
use rtcforge.Sfu.SfuCluster.Health.{probes, IsAt, short_rows_change_nothing, full_row_marks_failed}
use rtcforge.Sfu.SfuCluster.Assigned.{IsAssigned, assign_node-IsAssigned}
use rtcforge.Sfu.HealthChecker.{
  Probe, HealthChecker, new_checker, start, tick, tick_over, probe_timed_out,
}
use rtcforge.Sfu.HealthChecker.Sweeps.{Reach, starts, ticks, times_out, asked, one_probe_at_a_time}
use rtcforge.Sfu.NodeFailureTracker.{NodeFailureTracker, new_tracker}
use rtcforge.Sfu.NodeFailureTracker.Once.{
  Notice, failed, removed, hear_all, one_if, gone_is_reported_once,
}

abbrev busy : SfuNode
busy = report_load 7 (new_node "a" "eu" 100)

abbrev calm : SfuNode
calm = report_load 2 (new_node "b" "eu" 100)

abbrev no_nodes : SfuCluster
no_nodes = record {
  objects = busy ∷ calm ∷ [];
  nodes = [];
  listening = [];
  fail_streak = [];
  pass_streak = [];
  failure_threshold = 3;
  recovery_threshold = 2;
  rebalanced = [];
  events = [];
}

abbrev cluster : SfuCluster
cluster = add_node 1 calm (add_node 0 busy no_nodes)

cluster-IsAt : IsAt 0 busy 0 cluster
unfolding add_node new_node report_load has set get
cluster-IsAt = record { there = refl; up = refl; row = refl; distinct = tt }

abbrev flapping : List Bool
flapping = false ∷ false ∷ true ∷ false ∷ false ∷ []

short_rows_change_nothing_example :
    ((probes 0 flapping cluster).objects ≡ cluster.objects)
    × ((probes 0 flapping cluster).events ≡ cluster.events)
    × ((probes 0 flapping cluster).rebalanced ≡ cluster.rebalanced)
unfolding add_node has set report_load new_node
short_rows_change_nothing_example =
    short_rows_change_nothing 0 0 busy flapping cluster cluster-IsAt refl

full_row_marks_failed_example :
    (probes 0 (replicate 3 false) cluster).objects ≡ put_object 0 (mark_failed busy) cluster.objects
unfolding add_node has set report_load new_node
full_row_marks_failed_example = full_row_marks_failed 0 0 2 busy cluster cluster-IsAt refl

assign_node-IsAssigned_example :
    IsAssigned cluster (some "eu") (assign_node select_least (some "eu") none cluster)
assign_node-IsAssigned_example = assign_node-IsAssigned cluster (some "eu") none

-- Both nodes are asked, and the first does not answer in time.
abbrev checking : HealthChecker
checking = tick cluster (start (new_checker 50))

abbrev probe_of_a : Probe
probe_of_a = record { object = 0; node_id = "a"; late = false }

abbrev asked_twice : HealthChecker
asked_twice = tick cluster (probe_timed_out 0 probe_of_a cluster checking).1

first_asked : get_elem? checking.probes 0 ≡ some probe_of_a
unfolding start new_checker tick tick_over all_nodes add_node has set report_load new_node contains
first_asked = refl

one_probe_at_a_time_example :
    Distinct (asked asked_twice.probes) × (asked_twice.in_flight ≡ asked asked_twice.probes)
one_probe_at_a_time_example = one_probe_at_a_time 50 asked_twice (
    Reach.next
      (Reach.next (Reach.next (Reach.next Reach.here starts) (ticks cluster))
        (times_out 0 probe_of_a cluster first_asked))
      (ticks cluster))

abbrev watching : NodeFailureTracker
watching = new_tracker ((0, busy) ∷ (1, calm) ∷ [])

abbrev notices : List Notice
notices = failed "a" ∷ removed busy ∷ []

gone_is_reported_once_example :
    count "a" (hear_all notices watching).lost
    ≡ count "a" watching.lost + one_if (contains "a" (hear_all notices watching).gone)
unfolding new_tracker contains has set report_load new_node
gone_is_reported_once_example = gone_is_reported_once "a" notices watching refl refl
