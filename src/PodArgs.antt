-- ===== src/PodArgs.antt =====
-- cmd/internal/kube/daemonset/pod_args.go: the state of one pod, and the guarded changes of it.
-- The configuration that a pod's environment sets is left out. Of the channel StopChan the model
-- keeps how much was sent to it, whether it is closed, and whether the closed channel was sent to
-- or closed again, which panics.
pub mod Transitions
mod Tests
use postman_insights_agent.Prelude.{
  ℕ, ◌+◌, String, Bool, true, false, not, ◌&&◌, ◌||◌, Option, none, some, List, [], ◌∷◌, nat_beq,
  any, length, if◌then◌else◌,
}

-- The constants of PodTrafficMonitorState; `unset` is the zero value "" of a new PodArgs.
pub data TrafficMonitorState : Type 0 where
  unset : TrafficMonitorState
  pod_pending : TrafficMonitorState
  pod_running : TrafficMonitorState
  pod_succeeded : TrafficMonitorState
  pod_failed : TrafficMonitorState
  pod_terminated : TrafficMonitorState
  remove_pod_from_map : TrafficMonitorState
  traffic_monitoring_running : TrafficMonitorState
  traffic_monitoring_failed : TrafficMonitorState
  traffic_monitoring_ended : TrafficMonitorState
  daemon_set_shutdown : TrafficMonitorState

-- The strings are compared; they are different, so their numbers serve.
abbrev pub number : TrafficMonitorState → ℕ
number unset = 0
number pod_pending = 1
number pod_running = 2
number pod_succeeded = 3
number pod_failed = 4
number pod_terminated = 5
number remove_pod_from_map = 6
number traffic_monitoring_running = 7
number traffic_monitoring_failed = 8
number traffic_monitoring_ended = 9
number daemon_set_shutdown = 10

abbrev pub state_beq : TrafficMonitorState → TrafficMonitorState → Bool
state_beq a b = nat_beq (number a) (number b)

pub data StateError : Type 0 where
  in_final_state : TrafficMonitorState → StateError
  invalid_current_state : TrafficMonitorState → StateError
  already_in_state : TrafficMonitorState → StateError
  already_marked : StateError
  invalid_state : TrafficMonitorState → StateError

-- The apidump process of a pod: the goroutine that StartApiDumpProcess makes.
pub data ApidumpProcess : Type 0 where
  not_started : ApidumpProcess
  is_running : ApidumpProcess
  has_ended : ApidumpProcess

pub record PodArgs : Type 0 where
  pub pod_name : String
  pub pod_traffic_monitor_state : TrafficMonitorState
  pub stop_signals : ℕ
  pub stop_chan_closed : Bool
  pub channel_panic : Bool
  pub apidump_process : ApidumpProcess

unfoldable pub new_pod_args : String → PodArgs
new_pod_args name = record {
  pod_name = name;
  pod_traffic_monitor_state = unset;
  stop_signals = 0;
  stop_chan_closed = false;
  channel_panic = false;
  apidump_process = not_started;
}

-- podArgs.StopChan <- err. The channel has room for two, and the apidump process takes one out;
-- that a third send waits until then is left out.
unfoldable pub send_stop : PodArgs → PodArgs
send_stop p = record p {
  stop_signals = p.stop_signals + 1;
  channel_panic = p.channel_panic || p.stop_chan_closed;
}

-- close(podArgs.StopChan)
unfoldable pub close_stop_chan : PodArgs → PodArgs
close_stop_chan p = record p {
  stop_chan_closed = true;
  channel_panic = p.channel_panic || p.stop_chan_closed;
}

-- isTrafficMonitoringInFinalState
abbrev pub is_final : TrafficMonitorState → Bool
is_final traffic_monitoring_ended = true
is_final traffic_monitoring_failed = true
is_final remove_pod_from_map = true
is_final _ = false

-- An empty list allows every current state.
abbrev pub is_allowed : List TrafficMonitorState → TrafficMonitorState → Bool
is_allowed [] s = true
is_allowed (a ∷ as') s = any (λ x. state_beq x s) (a ∷ as')

unfoldable pub change_state :
    TrafficMonitorState → List TrafficMonitorState → PodArgs → PodArgs × Option StateError
change_state next allowed p =
    if is_final p.pod_traffic_monitor_state
    then (p, some (in_final_state p.pod_traffic_monitor_state))
    else if not (is_allowed allowed p.pod_traffic_monitor_state)
    then (p, some (invalid_current_state p.pod_traffic_monitor_state))
    else if state_beq p.pod_traffic_monitor_state next
    then (p, some (already_in_state next))
    else (record p { pod_traffic_monitor_state = next }, none)

-- The switch of `markAsPruneReady`.
pub mark_from : TrafficMonitorState → PodArgs → PodArgs × Option StateError
mark_from traffic_monitoring_ended p =
    (record p { pod_traffic_monitor_state = remove_pod_from_map }, none)
mark_from traffic_monitoring_failed p =
    (record p { pod_traffic_monitor_state = remove_pod_from_map }, none)
mark_from remove_pod_from_map p = (p, some already_marked)
mark_from s p = (p, some (invalid_state s))

unfoldable pub mark_as_prune_ready : PodArgs → PodArgs × Option StateError
unfolding mark_from
mark_as_prune_ready p = mark_from p.pod_traffic_monitor_state p
