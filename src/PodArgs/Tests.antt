-- ===== src/PodArgs/Tests.antt =====
-- cmd/internal/kube/daemonset/pod_args.go: a pod whose monitoring runs, and one where it has ended.
use postman_insights_agent.Prelude.{◌≡◌, ◌≢◌, ◌⊎◌, ◌↔◌, none, some, [], ◌∷◌}
use postman_insights_agent.PodArgs.{
  PodArgs, new_pod_args, pod_terminated, traffic_monitoring_running, traffic_monitoring_ended,
  traffic_monitoring_failed, remove_pod_from_map, change_state,
}
use mathlib.Core.List.{Memᴰ}
use postman_insights_agent.PodArgs.Transitions.{change_state_iff}

abbrev running : PodArgs
unfolding new_pod_args
running = record (new_pod_args "shop") { pod_traffic_monitor_state = traffic_monitoring_running }

abbrev ended : PodArgs
ended = record running { pod_traffic_monitor_state = traffic_monitoring_ended }

change_state_iff_example :
    (((change_state pod_terminated (traffic_monitoring_running ∷ []) running).1 ≡ none) ↔ (
      (traffic_monitoring_running ≢ traffic_monitoring_ended)
      × (traffic_monitoring_running ≢ traffic_monitoring_failed)
      × (traffic_monitoring_running ≢ remove_pod_from_map)
      × (((traffic_monitoring_running ∷ []) ≡ [])
          ⊎ Memᴰ traffic_monitoring_running (traffic_monitoring_running ∷ []))
      × (traffic_monitoring_running ≢ pod_terminated)))
    × ((change_state pod_terminated (traffic_monitoring_running ∷ []) running).0
        ≡ elim (change_state pod_terminated (traffic_monitoring_running ∷ []) running).1 [
          | none ↦ record running { pod_traffic_monitor_state = pod_terminated }
          | some _ ↦ running
        ])
unfolding running
change_state_iff_example = change_state_iff pod_terminated (traffic_monitoring_running ∷ []) running
