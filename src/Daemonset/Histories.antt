-- ===== src/Daemonset/Histories.antt =====
-- cmd/internal/kube/daemonset: what holds of every pod after any history of the agent.
use postman_insights_agent.Prelude.{
  ℕ, ◌≤◌, String, ◌≡◌, refl, ◌≢◌, Bool, true, false, ◌&&◌, Option, none, some, List, [], ◌∷◌, ◌++◌,
  ◌↔◌, arith, if◌then◌else◌, option_cases, if_cases, string_eq, nat_eq,
}
use postman_insights_agent.Prelude.Dict.{lookup}
use postman_insights_agent.PodArgs.{
  pod_terminated, daemon_set_shutdown, pod_pending, pod_running, PodArgs, is_final, has_ended,
}
use postman_insights_agent.Daemonset.{
  Daemonset, new_daemonset, PodPhase, phase_running, phase_succeeded, phase_failed, other_phase,
  NodePod, Event, starts_up, pod_added, pod_modified, pod_deleted, apidump_ends, health_check,
  prunes, shuts_down, step, run, start_process_in_existing_pods, handle_pod_add_event,
  handle_pod_delete_event, check_pods_health, prune_stopped_processes, stop_all_api_dump_processes,
  detect_unmonitored, check_status, check_statuses, for_each, prune, stop_one, add_captured,
  handle_terminated_pod, handle_unmonitored_pod, start_api_dump_process, deleted_state, keys,
  get_pod_args_from_map,
}
use postman_insights_agent.Daemonset.Steps.{Inv, new_daemonset-Inv}
use postman_insights_agent.Daemonset.Lifecycle.{
  pending, running, add-Inv, start-Inv, modify-Inv, process_ends-Inv, prune-Inv, stop_one-Inv,
  change_signal-Inv, deleted-Signals, terminated-Signals, gone-Signals,
}

for_each-Inv :
    (f : Daemonset → String → Daemonset)
    → ((d : Daemonset) (uid : String) → Inv d → Inv (f d uid))
    → (d : Daemonset) (uids : List String) → Inv d
    → Inv (for_each f d uids)
unfolding for_each
for_each-Inv f k d [] h = h
for_each-Inv f k d (uid ∷ uids) h = for_each-Inv f k (f d uid) uids (k d uid h)

pub add_captured-Inv : (d : Daemonset) (pod : NodePod) → Inv d → Inv (add_captured d pod).0
unfolding add_captured
add_captured-Inv d pod h =
    if_cases (λ (r : Daemonset × Bool). Inv r.0) (pod.captured && pod.inspected)
      (λ _. add-Inv d pod.uid pod.name pod_running (running refl) h) (λ _. h)

pub detect_unmonitored-Inv :
    (d : Daemonset) (pods : List NodePod) → Inv d → Inv (detect_unmonitored d pods).0
unfolding detect_unmonitored
detect_unmonitored-Inv d [] h = h
detect_unmonitored-Inv d (pod ∷ pods) h =
    detect_unmonitored-Inv (add_captured d pod).0 pods (add_captured-Inv d pod h)

existing-Inv :
    (d : Daemonset) (pods : List NodePod) → Inv d → Inv (start_process_in_existing_pods d pods)
unfolding start_process_in_existing_pods
existing-Inv d [] h = h
existing-Inv d (pod ∷ pods) h =
    existing-Inv
      (if (add_captured d pod).1
        then start_api_dump_process (add_captured d pod).0 pod.uid
        else (add_captured d pod).0)
      pods
      (if_cases Inv (add_captured d pod).1
        (λ _. start-Inv (add_captured d pod).0 pod.uid (add_captured-Inv d pod h))
        (λ _. add_captured-Inv d pod h))

unmonitored-Inv : (d : Daemonset) (uid : String) → Inv d → Inv (handle_unmonitored_pod d uid)
unfolding handle_unmonitored_pod
unmonitored-Inv d uid h =
    option_cases Inv (get_pod_args_from_map d uid) (λ _. h)
      λ (ref, p) _. if_cases Inv _ (λ _. start-Inv d uid h) (λ _. h)

check_status-Inv :
    (d : Daemonset) (uid : String) (status : Option PodPhase)
    → Inv d
    → Inv (check_status d uid status)
unfolding check_status handle_terminated_pod
check_status-Inv d uid none h = change_signal-Inv d uid pod_terminated [] gone-Signals (λ e. cc) h
check_status-Inv d uid (some phase_succeeded) h =
    change_signal-Inv d uid pod_terminated _ terminated-Signals (λ e. cc) h
check_status-Inv d uid (some phase_failed) h =
    change_signal-Inv d uid pod_terminated _ terminated-Signals (λ e. cc) h
check_status-Inv d uid (some phase_running) h = unmonitored-Inv d uid h
check_status-Inv d uid (some other_phase) h = h

check_statuses-Inv :
    (d : Daemonset) (statuses : List (String × PodPhase)) (uids : List String)
    → Inv d
    → Inv (check_statuses d statuses uids)
unfolding check_statuses
check_statuses-Inv d statuses [] h = h
check_statuses-Inv d statuses (uid ∷ uids) h =
    check_statuses-Inv (check_status d uid (lookup uid statuses)) statuses uids
      (check_status-Inv d uid (lookup uid statuses) h)

deleted_state-ne : (phase : PodPhase) → deleted_state phase ≢ daemon_set_shutdown
deleted_state-ne phase_succeeded = λ e. cc
deleted_state-ne phase_failed = λ e. cc
deleted_state-ne _ = λ e. cc

step-Inv : (d : Daemonset) (e : Event) → Inv d → Inv (step d e)
unfolding step handle_pod_add_event handle_pod_delete_event check_pods_health
    prune_stopped_processes stop_all_api_dump_processes
step-Inv d (starts_up pods) h = existing-Inv d pods h
step-Inv d (pod_added uid name has_sidecar captured) h =
    if_cases Inv has_sidecar (λ _. h)
      λ _. if_cases Inv captured (λ _. add-Inv d uid name pod_pending (pending refl) h) (λ _. h)
step-Inv d (pod_modified uid phase inspected) h = modify-Inv d uid phase inspected h
step-Inv d (pod_deleted uid phase) h =
    change_signal-Inv d uid (deleted_state phase) _ (deleted-Signals phase) (deleted_state-ne phase)
      h
step-Inv d (apidump_ends ref failed) h = process_ends-Inv d ref failed h
step-Inv d (health_check pods statuses) h =
    check_statuses-Inv (detect_unmonitored d pods).0 statuses
      (keys d.pod_args_by_name_map ++ (detect_unmonitored d pods).1)
      (detect_unmonitored-Inv d pods h)
step-Inv d prunes h = for_each-Inv prune prune-Inv d (keys d.pod_args_by_name_map) h
step-Inv d shuts_down h = for_each-Inv stop_one stop_one-Inv d (keys d.pod_args_by_name_map) h

run-Inv : (d : Daemonset) (es : List Event) → Inv d → Inv (run d es)
unfolding run
run-Inv d [] h = h
run-Inv d (e ∷ es) h = run-Inv (step d e) es (step-Inv d e h)

-- In any history of the daemonset agent in which no two handlers overlap: every pod object's state
-- agrees with its apidump process, the number of its stop signals and its stop channel; if the
-- process was not started, then there are at most two stop signals, which the channel has room
-- for, and otherwise at most three; the channel is neither sent to nor closed after it was closed;
-- the map of pods refers to objects that were made, no two pods share one, and those have an open
-- channel and have not been told of the shutdown.
pub run-new_daemonset-Inv : (es : List Event) → Inv (run new_daemonset es)
run-new_daemonset-Inv es = run-Inv new_daemonset es new_daemonset-Inv

-- In any history of the agent in which no two handlers overlap, every pod object that it ever made has been sent at most three
-- stop signals, and its stop channel was never sent to or closed after it had been closed.
pub stop_signals-bounded :
    (es : List Event) (ref : ℕ) (p : PodArgs)
    → lookup ref (run new_daemonset es).objects ≡ some p
    → (p.stop_signals ≤ 3) × (p.channel_panic ≡ false)
stop_signals-bounded es ref p e =
    let s = (run-new_daemonset-Inv es).sound ref p e in ground (arith, s.fits, s.no_panic)

-- In any history of the agent in which no two handlers overlap, a pod object is in a final state (ended, failed or marked for
-- removal) exactly when its apidump process was started and has ended.
pub is_final-has_ended :
    (es : List Event) (ref : ℕ) (p : PodArgs)
    → lookup ref (run new_daemonset es).objects ≡ some p
    → (is_final p.pod_traffic_monitor_state ≡ true) ↔ (p.apidump_process ≡ has_ended)
is_final-has_ended es ref p e =
    let s = (run-new_daemonset-Inv es).sound ref p e in
    (λ f. ground (arith, s.fits), λ f. ground (arith, s.fits))
