-- ===== src/Daemonset.antt =====
-- cmd/internal/kube/daemonset: the handlers of pod events, the health check, the pruning and the
-- shutdown, over the map of pods. A PodArgs is an object that the map points to and that the
-- goroutine of its apidump process keeps after the map has forgotten it. Each handler is one step: the
-- program runs them in goroutines, with a lock for each access, and what two of them do that overlap is
-- left out. A history of this module is one in which no two handlers overlap.
pub mod Steps
pub mod Lifecycle
pub mod Histories
pub mod Outage
pub mod Leftovers
pub mod Unpruned
pub mod Leak
mod Tests
use postman_insights_agent.Prelude.{
  ℕ, ◌+◌, suc, String, Bool, true, false, not, ◌&&◌, Option, none, some, List, [], ◌∷◌, ◌++◌, map,
  nat_eq, string_eq, if◌then◌else◌, ◌==◌,
}
use postman_insights_agent.Prelude.Dict.{lookup, insert, delete}
use postman_insights_agent.PodArgs.{
  TrafficMonitorState, pod_pending, pod_running, pod_succeeded, pod_failed, pod_terminated,
  remove_pod_from_map, traffic_monitoring_running, traffic_monitoring_failed,
  traffic_monitoring_ended, daemon_set_shutdown, state_beq, PodArgs, new_pod_args, change_state,
  mark_as_prune_ready, send_stop, close_stop_chan, ApidumpProcess, not_started, is_running,
  has_ended,
}

-- corev1.PodPhase, as far as the switches tell the phases apart.
pub data PodPhase : Type 0 where
  phase_running : PodPhase
  phase_succeeded : PodPhase
  phase_failed : PodPhase
  other_phase : PodPhase

-- `objects` holds every PodArgs made so far, by the number of its allocation.
pub record Daemonset : Type 0 where
  pub objects : List (ℕ × PodArgs)
  pub next_object : ℕ
  pub pod_args_by_name_map : List (String × ℕ)

pub new_daemonset : Daemonset
new_daemonset = record { objects = []; next_object = 0; pod_args_by_name_map = [] }

-- getPodArgsFromMap: the pointer, and what it points to.
pub get_pod_args_from_map : Daemonset → String → Option (ℕ × PodArgs)
get_pod_args_from_map d uid = elim (lookup uid d.pod_args_by_name_map) [
  | none ↦ none
  | some ref ↦ elim (lookup ref d.objects) [ none ↦ none | some p ↦ some (ref, p) ]
]

pub store : Daemonset → ℕ → PodArgs → Daemonset
store d ref p = record d { objects = insert ref p d.objects }

-- LoadOrStore, and the starting state of what was stored. The Boolean is success.
pub add_pod_args_to_map : Daemonset → String → PodArgs → TrafficMonitorState → Daemonset × Bool
add_pod_args_to_map d uid args starting_state = elim (lookup uid d.pod_args_by_name_map) [
  | some _ ↦ (d, false)
  | none ↦
      let (args', e) = change_state starting_state [] args in
      (
        record {
          objects = insert d.next_object args' d.objects;
          next_object = suc d.next_object;
          pod_args_by_name_map = insert uid d.next_object d.pod_args_by_name_map;
        },
        elim e [ none ↦ true | some _ ↦ false ],
      )
]

-- SignalApiDumpProcessToStop
pub signal_to_stop : Daemonset → String → Daemonset
signal_to_stop d uid = elim (get_pod_args_from_map d uid) [
  | none ↦ d
  | some (ref, p) ↦ store d ref (send_stop p)
]

-- A guarded change of the pod's state, and `rest` if it was made.
pub change_then :
    Daemonset
    → String
    → TrafficMonitorState
    → List TrafficMonitorState
    → (Daemonset → Daemonset)
    → Daemonset
change_then d uid next allowed rest = elim (get_pod_args_from_map d uid) [
  | none ↦ d
  | some (ref, p) ↦
      let (p', e) = change_state next allowed p in
      elim e [ none ↦ rest (store d ref p') | some _ ↦ d ]
]

-- StartApiDumpProcess, up to the goroutine's start
pub start_api_dump_process : Daemonset → String → Daemonset
start_api_dump_process d uid = elim (get_pod_args_from_map d uid) [
  | none ↦ d
  | some (ref, p) ↦
      let (p', e) = change_state traffic_monitoring_running (pod_running ∷ []) p in
      elim e [ none ↦ store d ref (record p' { apidump_process = is_running }) | some _ ↦ d ]
]

-- The deferred function of the goroutine; `failed` is a panic or an error.
finish : Bool → PodArgs → PodArgs
finish failed p =
    let next = if failed then traffic_monitoring_failed else traffic_monitoring_ended in
    (change_state next
      (traffic_monitoring_running ∷ pod_succeeded ∷ pod_failed ∷ pod_terminated
        ∷ daemon_set_shutdown ∷ [])
      (record p { apidump_process = has_ended })).0

abbrev runs : ApidumpProcess → Bool
runs is_running = true
runs _ = false

-- The goroutine of an object ends.
pub process_ends : Daemonset → ℕ → Bool → Daemonset
unfolding finish
process_ends d ref failed = elim (lookup ref d.objects) [
  | none ↦ d
  | some p ↦ if runs p.apidump_process then store d ref (finish failed p) else d
]

-- `has_sidecar` is what FilterPodsByContainerImage says, `captured` the discovery filter.
pub handle_pod_add_event : Daemonset → String → String → Bool → Bool → Daemonset
handle_pod_add_event d uid name has_sidecar captured =
    if has_sidecar
    then d
    else if captured
    then (add_pod_args_to_map d uid (new_pod_args name) pod_pending).0
    else d

abbrev deleted_state : PodPhase → TrafficMonitorState
deleted_state phase_succeeded = pod_succeeded
deleted_state phase_failed = pod_failed
deleted_state _ = pod_terminated

pub handle_pod_delete_event : Daemonset → String → PodPhase → Daemonset
handle_pod_delete_event d uid phase =
    change_then d uid (deleted_state phase) (traffic_monitoring_running ∷ [])
      λ d'. signal_to_stop d' uid

abbrev is_phase_running : PodPhase → Bool
is_phase_running phase_running = true
is_phase_running _ = false

-- `inspected` is whether inspectPodForEnvVars found a usable configuration.
pub handle_pod_modify_event : Daemonset → String → PodPhase → Bool → Daemonset
handle_pod_modify_event d uid phase inspected = elim (get_pod_args_from_map d uid) [
  | none ↦ d
  | some (ref, p) ↦
      if is_phase_running phase && state_beq p.pod_traffic_monitor_state pod_pending
      then if inspected
        then change_then d uid pod_running (pod_pending ∷ []) (λ d'. start_api_dump_process d' uid)
        else record d { pod_args_by_name_map = delete uid d.pod_args_by_name_map }
      else d
]

pub handle_terminated_pod : Daemonset → String → Bool → Daemonset
handle_terminated_pod d uid pod_does_not_exist =
    change_then d uid pod_terminated
      (if pod_does_not_exist then [] else traffic_monitoring_running ∷ [])
      λ d'. signal_to_stop d' uid

pub handle_unmonitored_pod : Daemonset → String → Daemonset
handle_unmonitored_pod d uid = elim (get_pod_args_from_map d uid) [
  | none ↦ d
  | some (ref, p) ↦
      if state_beq p.pod_traffic_monitor_state pod_running then start_api_dump_process d uid else d
]

-- A pod of the node without a sidecar: whether the filter captures it and its inspection succeeds.
pub record NodePod : Type 0 where
  pub uid : String
  pub name : String
  pub captured : Bool
  pub inspected : Bool

-- What both loops over the node's pods do first: skip the pods that are filtered or not configured.
pub add_captured : Daemonset → NodePod → Daemonset × Bool
add_captured d pod =
    if pod.captured && pod.inspected
    then add_pod_args_to_map d pod.uid (new_pod_args pod.name) pod_running
    else (d, false)

-- The first loop of checkPodsHealth: the pods that it adds to those that are checked.
pub detect_unmonitored : Daemonset → List NodePod → Daemonset × List String
unfolding add_captured
detect_unmonitored d [] = (d, [])
detect_unmonitored d (pod ∷ pods) =
    let (d', added) = add_captured d pod in
    let (d'', uids) = detect_unmonitored d' pods in (d'', if added then pod.uid ∷ uids else uids)

-- The body of the second loop. A status that is missing is the zero value in the switch.
check_status : Daemonset → String → Option PodPhase → Daemonset
check_status d uid none = handle_terminated_pod d uid true
check_status d uid (some phase_succeeded) = handle_terminated_pod d uid false
check_status d uid (some phase_failed) = handle_terminated_pod d uid false
check_status d uid (some phase_running) = handle_unmonitored_pod d uid
check_status d uid (some other_phase) = d

check_statuses : Daemonset → List (String × PodPhase) → List String → Daemonset
unfolding check_status
check_statuses d statuses [] = d
check_statuses d statuses (uid ∷ uids) =
    check_statuses (check_status d uid (lookup uid statuses)) statuses uids

abbrev keys : List (String × ℕ) → List String
keys = map λ entry. entry.0

-- `statuses` is what GetPodsStatusByUIDs returns: nothing, if it fails.
pub check_pods_health : Daemonset → List NodePod → List (String × PodPhase) → Daemonset
unfolding detect_unmonitored check_statuses
check_pods_health d pods statuses =
    let (d', added) = detect_unmonitored d pods in
    check_statuses d' statuses (keys d.pod_args_by_name_map ++ added)

abbrev ended_or_failed : TrafficMonitorState → Bool
ended_or_failed traffic_monitoring_ended = true
ended_or_failed traffic_monitoring_failed = true
ended_or_failed _ = false

-- The body of pruneStoppedProcesses.
pub prune : Daemonset → String → Daemonset
prune d uid = elim (get_pod_args_from_map d uid) [
  | none ↦ d
  | some (ref, p) ↦
      if ended_or_failed p.pod_traffic_monitor_state
      then store d ref (mark_as_prune_ready p).0
      else if state_beq p.pod_traffic_monitor_state remove_pod_from_map
      then record (store d ref (close_stop_chan p)) {
        pod_args_by_name_map = delete uid d.pod_args_by_name_map;
      }
      else d
]

-- The body of StopAllApiDumpProcesses.
pub stop_one : Daemonset → String → Daemonset
stop_one d uid = change_then d uid daemon_set_shutdown [] λ d'.
    (let d'' = signal_to_stop d' uid in
      record d'' { pod_args_by_name_map = delete uid d''.pod_args_by_name_map })

for_each : (Daemonset → String → Daemonset) → Daemonset → List String → Daemonset
for_each f d [] = d
for_each f d (uid ∷ uids) = for_each f (f d uid) uids

pub prune_stopped_processes : Daemonset → Daemonset
unfolding for_each
prune_stopped_processes d = for_each prune d (keys d.pod_args_by_name_map)

pub stop_all_api_dump_processes : Daemonset → Daemonset
unfolding for_each
stop_all_api_dump_processes d = for_each stop_one d (keys d.pod_args_by_name_map)

-- The loop of StartProcessInExistingPods.
pub start_process_in_existing_pods : Daemonset → List NodePod → Daemonset
unfolding add_captured
start_process_in_existing_pods d [] = d
start_process_in_existing_pods d (pod ∷ pods) =
    let (d', added) = add_captured d pod in
    start_process_in_existing_pods (if added then start_api_dump_process d' pod.uid else d') pods

-- What can happen to the daemonset agent.
pub data Event : Type 0 where
  starts_up : List NodePod → Event
  pod_added : String → String → Bool → Bool → Event
  pod_modified : String → PodPhase → Bool → Event
  pod_deleted : String → PodPhase → Event
  apidump_ends : ℕ → Bool → Event
  health_check : List NodePod → List (String × PodPhase) → Event
  prunes : Event
  shuts_down : Event

pub step : Daemonset → Event → Daemonset
step d (starts_up pods) = start_process_in_existing_pods d pods
step d (pod_added uid name has_sidecar captured) =
    handle_pod_add_event d uid name has_sidecar captured
step d (pod_modified uid phase inspected) = handle_pod_modify_event d uid phase inspected
step d (pod_deleted uid phase) = handle_pod_delete_event d uid phase
step d (apidump_ends ref failed) = process_ends d ref failed
step d (health_check pods statuses) = check_pods_health d pods statuses
step d prunes = prune_stopped_processes d
step d shuts_down = stop_all_api_dump_processes d

pub run : Daemonset → List Event → Daemonset
run d [] = d
run d (e ∷ es) = run (step d e) es
