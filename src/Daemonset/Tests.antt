-- ===== src/Daemonset/Tests.antt =====
-- cmd/internal/kube/daemonset: a pod that is found, monitored and deleted.
use postman_insights_agent.Prelude.{
  ◌+◌, ◌≡◌, refl, arith, true, false, nat_eq, string_eq, some, List, [], ◌∷◌,
}
use postman_insights_agent.Prelude.Dict.{lookup, insert}
use postman_insights_agent.PodArgs.{
  PodArgs, new_pod_args, change_state, send_stop, pod_terminated, traffic_monitoring_running,
  traffic_monitoring_ended, is_running, has_ended,
}
use postman_insights_agent.Daemonset.{
  new_daemonset, Event, pod_added, pod_modified, pod_deleted, apidump_ends, health_check, prunes,
  phase_running, phase_succeeded, run, step, handle_pod_add_event, handle_pod_modify_event,
  handle_pod_delete_event, add_pod_args_to_map, get_pod_args_from_map, change_then,
  start_api_dump_process, signal_to_stop, store, process_ends, finish, check_pods_health,
  handle_terminated_pod, NodePod,
}
use postman_insights_agent.Daemonset.Steps.{Inv}
use postman_insights_agent.Daemonset.Histories.{run-new_daemonset-Inv}
use postman_insights_agent.Daemonset.Leftovers.{Leftover}
use postman_insights_agent.Daemonset.Leak.{run-Leftover}
use postman_insights_agent.Daemonset.Outage.{check_pods_health-outage}

abbrev started : List Event
started = pod_added "u1" "shop" false true ∷ pod_modified "u1" phase_running true ∷ []

abbrev history : List Event
history =
    pod_added "u1" "shop" false true
    ∷ pod_modified "u1" phase_running true
    ∷ pod_deleted "u1" phase_succeeded
    ∷ apidump_ends 0 false
    ∷ []

abbrev running_pod : PodArgs
running_pod = record {
  pod_name = "shop";
  pod_traffic_monitor_state = traffic_monitoring_running;
  stop_signals = 0;
  stop_chan_closed = false;
  channel_panic = false;
  apidump_process = is_running;
}

abbrev ended_pod : PodArgs
ended_pod = record running_pod {
  pod_traffic_monitor_state = traffic_monitoring_ended;
  stop_signals = 1;
  apidump_process = has_ended;
}

run-started : get_pod_args_from_map (run new_daemonset started) "u1" ≡ some (0, running_pod)
unfolding run step new_daemonset handle_pod_add_event handle_pod_modify_event add_pod_args_to_map
    get_pod_args_from_map change_then start_api_dump_process store change_state new_pod_args lookup
    insert
run-started = refl

run-history : lookup 0 (run new_daemonset history).objects ≡ some ended_pod
unfolding run step new_daemonset handle_pod_add_event handle_pod_modify_event add_pod_args_to_map
    get_pod_args_from_map change_then start_api_dump_process store change_state new_pod_args lookup
    insert handle_pod_delete_event signal_to_stop send_stop process_ends finish
run-history = refl

run-new_daemonset-Inv_example : Inv (run new_daemonset history)
run-new_daemonset-Inv_example = run-new_daemonset-Inv history

-- The pod that is known, and a new one.
abbrev node_pods : List NodePod
node_pods =
    record { uid = "u1"; name = "shop"; captured = true; inspected = true }
    ∷ record { uid = "u2"; name = "cart"; captured = true; inspected = true }
    ∷ []

check_pods_health-outage_example :
    (q : PodArgs) × (get_pod_args_from_map
        (check_pods_health (run new_daemonset started) node_pods [])
        "u1"
      ≡ some (0, q))
    × (q.pod_traffic_monitor_state ≡ pod_terminated)
    × (q.stop_signals ≡ running_pod.stop_signals + 1)
check_pods_health-outage_example =
    check_pods_health-outage (run new_daemonset started) node_pods "u1" 0 running_pod
      (run-new_daemonset-Inv started) run-started refl (λ e. cc)

-- A pod that is gone before it ever ran.
abbrev gone_early : List Event
gone_early = pod_added "u1" "shop" false true ∷ health_check [] [] ∷ []

abbrev gone_pod : PodArgs
gone_pod = record (new_pod_args "shop") {
  pod_traffic_monitor_state = pod_terminated;
  stop_signals = 1;
}

left_over : Leftover "u1" 0 (run new_daemonset gone_early)
unfolding run lookup step check_pods_health handle_pod_add_event add_pod_args_to_map new_daemonset
    insert handle_terminated_pod change_then get_pod_args_from_map change_state new_pod_args
    signal_to_stop store send_stop
left_over = record {
  pod = gone_pod;
  mapped = refl;
  found = refl;
  made = omega arith;
  terminated = refl;
  never_started = refl;
}

run-Leftover_example :
    Leftover "u1" 0 (run (run new_daemonset gone_early) (prunes ∷ health_check [] [] ∷ prunes ∷ []))
run-Leftover_example =
    run-Leftover "u1" 0 (run new_daemonset gone_early) (prunes ∷ health_check [] [] ∷ prunes ∷ [])
      (tt, (tt, (tt, tt))) left_over
