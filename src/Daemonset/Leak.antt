-- ===== src/Daemonset/Leak.antt =====
-- cmd/internal/kube/daemonset: a pod that is never taken out of the map.
use postman_insights_agent.Prelude.{
  ℕ, String, Bool, ◌&&◌, Option, none, some, List, [], ◌∷◌, ◌++◌, if◌then◌else◌, option_cases,
  if_cases, string_eq, nat_eq, All,
}
use postman_insights_agent.Prelude.Dict.{lookup}
use postman_insights_agent.PodArgs.{pod_pending, pod_running, pod_terminated, state_beq}
use postman_insights_agent.Daemonset.{
  Daemonset, PodPhase, phase_running, phase_succeeded, phase_failed, other_phase, NodePod, Event,
  starts_up, pod_added, pod_modified, pod_deleted, apidump_ends, health_check, prunes, shuts_down,
  step, run, get_pod_args_from_map, start_api_dump_process, deleted_state, prune,
  handle_pod_add_event, handle_pod_delete_event, check_pods_health, prune_stopped_processes,
  start_process_in_existing_pods, detect_unmonitored, check_status, check_statuses, for_each,
  add_captured, handle_terminated_pod, handle_unmonitored_pod, keys,
}
use postman_insights_agent.Daemonset.Leftovers.{Leftover, from_running-Refused, again-Refused}
use postman_insights_agent.Daemonset.Unpruned.{
  change_signal-Kept, start-Kept, process_ends-Kept, add-Kept, modify-Kept, prune-Kept,
}

abbrev pub IsNotShutdown : Event → Type 0
IsNotShutdown shuts_down = ⊥
IsNotShutdown _ = Unit

module _ (uid : String) (ref : ℕ) where
  abbrev Stays : Daemonset → Type 0
  Stays = Leftover uid ref

  add_captured-Stays : (d : Daemonset) (pod : NodePod) → Stays d → Stays (add_captured d pod).0
  unfolding add_captured
  add_captured-Stays d pod h =
      if_cases (λ (r : Daemonset × Bool). Stays r.0) (pod.captured && pod.inspected)
        (λ _. add-Kept uid ref d pod.uid pod.name pod_running h) (λ _. h)

  detect_unmonitored-Stays :
      (d : Daemonset) (pods : List NodePod) → Stays d → Stays (detect_unmonitored d pods).0
  unfolding detect_unmonitored
  detect_unmonitored-Stays d [] h = h
  detect_unmonitored-Stays d (pod ∷ pods) h =
      detect_unmonitored-Stays (add_captured d pod).0 pods (add_captured-Stays d pod h)

  existing-Stays :
      (d : Daemonset) (pods : List NodePod)
      → Stays d
      → Stays (start_process_in_existing_pods d pods)
  unfolding start_process_in_existing_pods
  existing-Stays d [] h = h
  existing-Stays d (pod ∷ pods) h =
      let (d', added) = add_captured d pod in
      let h' = add_captured-Stays d pod h in
      existing-Stays (if added then start_api_dump_process d' pod.uid else d') pods
        (if_cases Stays added (λ _. start-Kept uid ref d' pod.uid h') (λ _. h'))

  unmonitored-Stays : (d : Daemonset) (u : String) → Stays d → Stays (handle_unmonitored_pod d u)
  unfolding handle_unmonitored_pod
  unmonitored-Stays d u h =
      option_cases Stays (get_pod_args_from_map d u) (λ _. h)
        λ (r, p) _.
          if_cases Stays (state_beq p.pod_traffic_monitor_state pod_running)
            (λ _. start-Kept uid ref d u h) (λ _. h)

  check_status-Stays :
      (d : Daemonset) (u : String) (status : Option PodPhase)
      → Stays d
      → Stays (check_status d u status)
  unfolding check_status handle_terminated_pod
  check_status-Stays d u none h =
      change_signal-Kept uid ref d u pod_terminated [] (again-Refused uid ref) h
  check_status-Stays d u (some phase_succeeded) h =
      change_signal-Kept uid ref d u pod_terminated _ (from_running-Refused uid ref pod_terminated)
        h
  check_status-Stays d u (some phase_failed) h =
      change_signal-Kept uid ref d u pod_terminated _ (from_running-Refused uid ref pod_terminated)
        h
  check_status-Stays d u (some phase_running) h = unmonitored-Stays d u h
  check_status-Stays d u (some other_phase) h = h

  check_statuses-Stays :
      (d : Daemonset) (statuses : List (String × PodPhase)) (uids : List String)
      → Stays d
      → Stays (check_statuses d statuses uids)
  unfolding check_statuses
  check_statuses-Stays d statuses [] h = h
  check_statuses-Stays d statuses (u ∷ uids) h =
      check_statuses-Stays (check_status d u (lookup u statuses)) statuses uids
        (check_status-Stays d u (lookup u statuses) h)

  prune_all-Stays : (d : Daemonset) (uids : List String) → Stays d → Stays (for_each prune d uids)
  unfolding for_each
  prune_all-Stays d [] h = h
  prune_all-Stays d (u ∷ uids) h = prune_all-Stays (prune d u) uids (prune-Kept uid ref d u h)

  step-Stays : (d : Daemonset) (e : Event) → IsNotShutdown e → Stays d → Stays (step d e)
  unfolding step handle_pod_add_event handle_pod_delete_event check_pods_health
      prune_stopped_processes
  step-Stays d (starts_up pods) _ h = existing-Stays d pods h
  step-Stays d (pod_added u name has_sidecar captured) _ h =
      if_cases Stays has_sidecar (λ _. h)
        λ _. if_cases Stays captured (λ _. add-Kept uid ref d u name pod_pending h) (λ _. h)
  step-Stays d (pod_modified u phase inspected) _ h = modify-Kept uid ref d u phase inspected h
  step-Stays d (pod_deleted u phase) _ h =
      change_signal-Kept uid ref d u (deleted_state phase) _
        (from_running-Refused uid ref (deleted_state phase)) h
  step-Stays d (apidump_ends r failed) _ h = process_ends-Kept uid ref d r failed h
  step-Stays d (health_check pods statuses) _ h =
      check_statuses-Stays (detect_unmonitored d pods).0 statuses
        (keys d.pod_args_by_name_map ++ (detect_unmonitored d pods).1)
        (detect_unmonitored-Stays d pods h)
  step-Stays d prunes _ h = prune_all-Stays d (keys d.pod_args_by_name_map) h
  step-Stays d shuts_down never h = absurd never

  -- A pod that is in the map as terminated, without its apidump process having been started, is
  -- still there, in the same state, after any history without a shutdown in which no two handlers
  -- overlap: the pruning never takes it out.
  pub run-Leftover :
      (d : Daemonset) (es : List Event)
      → All IsNotShutdown es
      → Leftover uid ref d
      → Leftover uid ref (run d es)
  unfolding run
  run-Leftover d [] _ h = h
  run-Leftover d (e ∷ es) quiet h = run-Leftover (step d e) es quiet.1 (step-Stays d e quiet.0 h)
