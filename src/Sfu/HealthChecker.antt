-- ===== src/Sfu/HealthChecker.antt =====
-- packages/sfu/src/HealthChecker.ts: the sweeps of a cluster's probes, each of which races its call of
-- `onCheck` against a timer.
pub mod Sweeps
use rtcforge.Map
use rtcforge.Map.{contains}
use rtcforge.Prelude.{
  ℕ, zero, suc, ltb, Bool, true, false, not, ◌||◌, List, [], ◌∷◌, ◌++◌, Option, none, some, String,
  ◌===◌, if◌then◌else◌, get_elem?, filter_by, text_key,
}
use rtcforge.Sfu.SfuNode.{SfuNode}
use rtcforge.Sfu.SfuCluster.{SfuCluster, all_nodes, on_health_result}

-- A call of `onCheck` that has not settled, for the node with that id and the object of that number. It is
-- `late` once its timer has fired.
pub record Probe : Type 0 where
  pub object : ℕ
  pub node_id : String
  pub late : Bool

pub record HealthChecker : Type 0 where
  pub timeout_ms : ℕ
  pub timer : Bool
  pub running : Bool
  pub in_flight : List String
  pub probes : List Probe

unfoldable pub new_checker : ℕ → HealthChecker
new_checker timeout_ms = record {
  timeout_ms = timeout_ms;
  timer = false;
  running = false;
  in_flight = [];
  probes = [];
}

unfoldable pub start : HealthChecker → HealthChecker
start h = if h.timer then h else record h { timer = true; running = true }

unfoldable pub stop : HealthChecker → HealthChecker
stop h = record h { timer = false; running = false }

-- The loop of `_tick`. A probe is begun before the next node is looked at.
unfoldable pub tick_over : List (ℕ × SfuNode) → HealthChecker → HealthChecker
tick_over [] h = h
tick_over ((o, n) ∷ ns) h = tick_over ns (
    if n.draining || contains n.id h.in_flight then h else record h {
      in_flight = h.in_flight ++ (n.id ∷ []);
      probes = h.probes ++ (record { object = o; node_id = n.id; late = false } ∷ []);
    })

-- `_tick`
unfoldable pub tick : SfuCluster → HealthChecker → HealthChecker
unfolding tick_over
tick c h = tick_over (all_nodes c) h

abbrev pub is_other : String → String → Bool
is_other id other = not (id === other)

abbrev pub result_of : Option SfuNode → ℕ → Bool → SfuCluster → SfuCluster
result_of none o healthy c = c
result_of (some n) o healthy c = on_health_result o n healthy c

-- What `_tick` does when the promise of `_probe` has settled: false stands for a rejection too.
unfoldable pub probe_done : Probe → Bool → SfuCluster → HealthChecker → SfuCluster × HealthChecker
unfolding on_health_result
probe_done p healthy c h =
    let c' =
      if not h.running || not (Map.has p.node_id c.nodes)
      then c
      else result_of (get_elem? c.objects p.object) p.object healthy c in
    (c', record h { in_flight = filter_by (is_other p.node_id) h.in_flight })

unfoldable pub remove_at : ℕ → List Probe → List Probe
remove_at i [] = []
remove_at zero (p ∷ ps) = ps
remove_at (suc i) (p ∷ ps) = p ∷ remove_at i ps

unfoldable pub make_late_at : ℕ → List Probe → List Probe
make_late_at i [] = []
make_late_at zero (p ∷ ps) = record p { late = true } ∷ ps
make_late_at (suc i) (p ∷ ps) = p ∷ make_late_at i ps

-- The `onCheck` call of the probe `p`, at the index `i`, settles. After its timer has fired, its promise
-- has been rejected already.
unfoldable pub check_settled :
    ℕ → Probe → Bool → SfuCluster → HealthChecker → SfuCluster × HealthChecker
unfolding probe_done remove_at
check_settled i p healthy c h =
    let over = record h { probes = remove_at i h.probes } in
    if p.late then (c, over) else probe_done p healthy c over

-- The timer of the probe `p`, at the index `i`, fires. Without a timeout there is none.
unfoldable pub probe_timed_out : ℕ → Probe → SfuCluster → HealthChecker → SfuCluster × HealthChecker
unfolding probe_done make_late_at
probe_timed_out i p c h =
    let late = record h { probes = make_late_at i h.probes } in
    if not (ltb 0 h.timeout_ms) || p.late then (c, h) else probe_done p false c late
