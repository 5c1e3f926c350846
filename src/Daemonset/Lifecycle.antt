-- ===== src/Daemonset/Lifecycle.antt =====
-- cmd/internal/kube/daemonset: the life of a pod under any sequence of the handlers.
use postman_insights_agent.Prelude.{
  ℕ, String, ◌≡◌, refl, ◌≢◌, Bool, true, none, some, List, [], ◌∷◌, arith, nat_eq, string_eq,
  option_cases, if_cases,
}
use postman_insights_agent.Prelude.Dict.{lookup, lookup-insert, insert-insert, beq_refl}
use postman_insights_agent.PodArgs.{
  TrafficMonitorState, pod_pending, pod_running, pod_terminated, remove_pod_from_map,
  traffic_monitoring_running, daemon_set_shutdown, PodArgs, new_pod_args, change_state,
  mark_as_prune_ready, is_running, send_stop, close_stop_chan, state_beq,
}
use postman_insights_agent.PodArgs.Transitions.{state_beq_iff}
use postman_insights_agent.Daemonset.{
  Daemonset, get_pod_args_from_map, store, signal_to_stop, add_pod_args_to_map, change_then,
  start_api_dump_process, finish, process_ends, runs, PodPhase, phase_succeeded, deleted_state,
  stop_one, prune, handle_pod_modify_event,
}
use postman_insights_agent.Daemonset.Steps.{
  IsSound, IsLive, Inv, store-Inv, remove-Inv, unmap-Inv, allocate-Inv,
}

-- What the map and the objects say of a pod that is found.
pub get_pod_args-found :
    (d : Daemonset) (uid : String) (ref : ℕ) (p : PodArgs)
    → get_pod_args_from_map d uid ≡ some (ref, p)
    → (lookup uid d.pod_args_by_name_map ≡ some ref) × (lookup ref d.objects ≡ some p)
unfolding get_pod_args_from_map
get_pod_args-found d uid ref p e = ground arith

pub get_pod_args-store :
    (d : Daemonset) (uid : String) (ref : ℕ) (q : PodArgs)
    → lookup uid d.pod_args_by_name_map ≡ some ref
    → get_pod_args_from_map (store d ref q) uid ≡ some (ref, q)
unfolding get_pod_args_from_map store
get_pod_args-store d uid ref q e = ground (arith, lookup-insert ref ref q d.objects, beq_refl ref)

store-store :
    (d : Daemonset) (ref : ℕ) (p q : PodArgs) → store (store d ref p) ref q ≡ store d ref q
unfolding store
store-store d ref p q = rw (insert-insert ref q p d.objects)

pub signal_to_stop-store :
    (d : Daemonset) (uid : String) (ref : ℕ) (q : PodArgs)
    → lookup uid d.pod_args_by_name_map ≡ some ref
    → signal_to_stop (store d ref q) uid ≡ store d ref (send_stop q)
unfolding signal_to_stop
signal_to_stop-store d uid ref q e =
    rw (get_pod_args-store d uid ref q e, signal_to_stop) (store-store d ref q (send_stop q))

-- A change of state, and a stop signal with it, that keep a pod sound and live.
pub record Signals (next : TrafficMonitorState) (allowed : List TrafficMonitorState) : Type 0 where
  pub still_sound :
      (p : PodArgs)
      → IsSound p
      → IsLive p
      → (change_state next allowed p).1 ≡ none
      → IsSound (send_stop (change_state next allowed p).0)

pub deleted-Signals :
    (phase : PodPhase) → Signals (deleted_state phase) (traffic_monitoring_running ∷ [])
unfolding change_state send_stop
deleted-Signals phase_succeeded = record {
  still_sound = λ p s l e. ground (arith, s.fits, s.no_panic, l.open_channel);
}
deleted-Signals _ = record {
  still_sound = λ p s l e. ground (arith, s.fits, s.no_panic, l.open_channel);
}

pub terminated-Signals : Signals pod_terminated (traffic_monitoring_running ∷ [])
unfolding change_state send_stop
terminated-Signals = record {
  still_sound = λ p s l e. ground (arith, s.fits, s.no_panic, l.open_channel, l.not_shut_down);
}

pub gone-Signals : Signals pod_terminated []
unfolding change_state send_stop
gone-Signals = record {
  still_sound = λ p s l e. ground (arith, s.fits, s.no_panic, l.open_channel, l.not_shut_down);
}

shutdown-Signals : Signals daemon_set_shutdown []
unfolding change_state send_stop
shutdown-Signals = record {
  still_sound = λ p s l e. ground (arith, s.fits, s.no_panic, l.open_channel, l.not_shut_down);
}

-- Whatever guard a change has, it keeps the channel as it is, and only the shutdown shuts down.
change_state-IsLive :
    (next : TrafficMonitorState) (allowed : List TrafficMonitorState) (p : PodArgs)
    → next ≢ daemon_set_shutdown
    → IsLive p
    → IsLive (send_stop (change_state next allowed p).0)
unfolding change_state send_stop
change_state-IsLive next allowed p n l = ground (arith, l.open_channel, l.not_shut_down)

pub change_signal-Inv :
    (d : Daemonset) (uid : String) (next : TrafficMonitorState) (allowed : List TrafficMonitorState)
    → Signals next allowed
    → next ≢ daemon_set_shutdown
    → Inv d
    → Inv (change_then d uid next allowed (λ d'. signal_to_stop d' uid))
unfolding change_then
change_signal-Inv d uid next allowed sig n h =
    option_cases Inv (get_pod_args_from_map d uid) (λ _. h)
      λ (ref, p) found.
        let (mapped, at) = get_pod_args-found d uid ref p found in
        option_cases Inv (change_state next allowed p).1
          (λ changed. rw (signal_to_stop-store d uid ref (change_state next allowed p).0 mapped) (
            store-Inv d ref p _ at
              (sig.still_sound p (h.sound ref p at) (h.live uid ref p mapped at) changed)
              (change_state-IsLive next allowed p n) h))
          (λ _ _. h)

pub stop_one-Inv : (d : Daemonset) (uid : String) → Inv d → Inv (stop_one d uid)
unfolding stop_one change_then store
stop_one-Inv d uid h =
    option_cases Inv (get_pod_args_from_map d uid) (λ _. h)
      λ (ref, p) found.
        let (mapped, at) = get_pod_args-found d uid ref p found in
        option_cases Inv (change_state daemon_set_shutdown [] p).1
          (λ changed.
            rw (signal_to_stop-store d uid ref (change_state daemon_set_shutdown [] p).0 mapped) (
              remove-Inv d uid ref p _ mapped at
                (shutdown-Signals.still_sound p (h.sound ref p at) (h.live uid ref p mapped at)
                  changed)
                h))
          (λ _ _. h)

-- The goroutine is started once, from `pod_running`.
started-IsSound :
    (p : PodArgs)
    → IsSound p
    → (change_state traffic_monitoring_running (pod_running ∷ []) p).1 ≡ none
    → IsSound (record (change_state traffic_monitoring_running (pod_running ∷ []) p).0 {
      apidump_process = is_running;
    })
unfolding change_state
started-IsSound p s e = ground (arith, s.fits, s.no_panic)

started-IsLive :
    (p : PodArgs)
    → IsLive p
    → IsLive (record (change_state traffic_monitoring_running (pod_running ∷ []) p).0 {
      apidump_process = is_running;
    })
unfolding change_state
started-IsLive p l = ground (arith, l.open_channel, l.not_shut_down)

pub start-Inv : (d : Daemonset) (uid : String) → Inv d → Inv (start_api_dump_process d uid)
unfolding start_api_dump_process
start-Inv d uid h =
    option_cases Inv (get_pod_args_from_map d uid) (λ _. h)
      λ (ref, p) found.
        let (mapped, at) = get_pod_args-found d uid ref p found in
        option_cases Inv (change_state traffic_monitoring_running (pod_running ∷ []) p).1
          (λ changed.
            store-Inv d ref p _ at (started-IsSound p (h.sound ref p at) changed) (started-IsLive p)
              h)
          (λ _ _. h)

finish-IsSound :
    (failed : Bool) (p : PodArgs)
    → IsSound p
    → runs p.apidump_process ≡ true
    → IsSound (finish failed p)
unfolding finish change_state
finish-IsSound failed p s e = ground (arith, s.fits, s.no_panic)

finish-IsLive : (failed : Bool) (p : PodArgs) → IsLive p → IsLive (finish failed p)
unfolding finish change_state
finish-IsLive failed p l = ground (arith, l.open_channel, l.not_shut_down)

pub process_ends-Inv :
    (d : Daemonset) (ref : ℕ) (failed : Bool) → Inv d → Inv (process_ends d ref failed)
unfolding process_ends
process_ends-Inv d ref failed h =
    option_cases Inv (lookup ref d.objects) (λ _. h)
      λ p at.
        if_cases Inv (runs p.apidump_process)
          (λ running.
            store-Inv d ref p _ at (finish-IsSound failed p (h.sound ref p at) running)
              (finish-IsLive failed p) h)
          (λ _. h)

-- A new pod, in either of the states that the code starts it in.
pub data IsStart : TrafficMonitorState → Type 0 where
  pending : {s : TrafficMonitorState} → s ≡ pod_pending → IsStart s
  running : {s : TrafficMonitorState} → s ≡ pod_running → IsStart s

added-IsSound :
    (name : String) (s : TrafficMonitorState)
    → IsStart s
    → let p = (change_state s [] (new_pod_args name)).0 in IsSound p × IsLive p
unfolding change_state new_pod_args
added-IsSound name s (pending e) = rw e (
  record { fits = (refl, refl, refl); no_panic = refl },
  record { open_channel = refl; not_shut_down = λ z. cc },
)
added-IsSound name s (running e) = rw e (
  record { fits = (refl, refl, refl); no_panic = refl },
  record { open_channel = refl; not_shut_down = λ z. cc },
)

pub add-Inv :
    (d : Daemonset) (uid name : String) (s : TrafficMonitorState)
    → IsStart s
    → Inv d
    → Inv (add_pod_args_to_map d uid (new_pod_args name) s).0
unfolding add_pod_args_to_map
add-Inv d uid name s st h =
    let new = added-IsSound name s st in
    option_cases (λ (r : Daemonset × Bool). Inv r.0) (lookup uid d.pod_args_by_name_map)
      (λ _. allocate-Inv d uid _ new.0 new.1 h) (λ _ _. h)

modified-IsSound :
    (p : PodArgs)
    → IsSound p
    → (change_state pod_running (pod_pending ∷ []) p).1 ≡ none
    → IsSound (change_state pod_running (pod_pending ∷ []) p).0
unfolding change_state
modified-IsSound p s e = ground (arith, s.fits, s.no_panic)

modified-IsLive :
    (p : PodArgs) → IsLive p → IsLive (change_state pod_running (pod_pending ∷ []) p).0
unfolding change_state
modified-IsLive p l = ground (arith, l.open_channel, l.not_shut_down)

modify_change-Inv :
    (d : Daemonset) (uid : String)
    → Inv d
    → Inv (change_then d uid pod_running (pod_pending ∷ []) (λ d'. start_api_dump_process d' uid))
unfolding change_then
modify_change-Inv d uid h =
    option_cases Inv (get_pod_args_from_map d uid) (λ _. h)
      λ (ref, p) found.
        let (mapped, at) = get_pod_args-found d uid ref p found in
        option_cases Inv (change_state pod_running (pod_pending ∷ []) p).1
          (λ changed. start-Inv _ uid (
            store-Inv d ref p _ at (modified-IsSound p (h.sound ref p at) changed)
              (modified-IsLive p) h))
          (λ _ _. h)

pub modify-Inv :
    (d : Daemonset) (uid : String) (phase : PodPhase) (inspected : Bool)
    → Inv d
    → Inv (handle_pod_modify_event d uid phase inspected)
unfolding handle_pod_modify_event
modify-Inv d uid phase inspected h =
    option_cases Inv (get_pod_args_from_map d uid) (λ _. h)
      λ (ref, p) found.
        if_cases Inv _
          (λ _. if_cases Inv inspected (λ _. modify_change-Inv d uid h) λ _. unmap-Inv d uid h)
          (λ _. h)

marked-IsSound : (p : PodArgs) → IsSound p → IsSound (mark_as_prune_ready p).0
unfolding mark_as_prune_ready
marked-IsSound p s = ground (arith, s.fits, s.no_panic)

marked-IsLive : (p : PodArgs) → IsLive p → IsLive (mark_as_prune_ready p).0
unfolding mark_as_prune_ready
marked-IsLive p l = ground (arith, l.open_channel, l.not_shut_down)

closed-IsSound :
    (p : PodArgs)
    → IsSound p
    → IsLive p
    → p.pod_traffic_monitor_state ≡ remove_pod_from_map
    → IsSound (close_stop_chan p)
unfolding close_stop_chan
closed-IsSound p s l e = ground (arith, s.fits, s.no_panic, l.open_channel)

pub prune-Inv : (d : Daemonset) (uid : String) → Inv d → Inv (prune d uid)
unfolding prune
prune-Inv d uid h =
    option_cases Inv (get_pod_args_from_map d uid) (λ _. h)
      λ (ref, p) found.
        let (mapped, at) = get_pod_args-found d uid ref p found in
        if_cases Inv _
          (λ _. store-Inv d ref p _ at (marked-IsSound p (h.sound ref p at)) (marked-IsLive p) h)
          λ _.
            if_cases Inv (state_beq p.pod_traffic_monitor_state remove_pod_from_map)
              (λ marked.
                remove-Inv d uid ref p (close_stop_chan p) mapped at
                  (closed-IsSound p (h.sound ref p at) (h.live uid ref p mapped at)
                    ((state_beq_iff _ _).0 marked))
                  h)
              (λ _. h)
