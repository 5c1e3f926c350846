-- ===== src/Daemonset/Unpruned.antt =====
-- cmd/internal/kube/daemonset: what the handlers do with a pod that is left over.
use postman_insights_agent.Prelude.{
  ℕ, String, ◌≡◌, ◌≢◌, Bool, ◌&&◌, none, some, List, [], ◌∷◌, arith, option_cases, if_cases,
  string_eq, nat_eq, nat_beq_iff,
}
use postman_insights_agent.Prelude.Dict.{lookup, lookup-insert}
use postman_insights_agent.PodArgs.{
  TrafficMonitorState, pod_pending, pod_running, remove_pod_from_map, traffic_monitoring_running,
  PodArgs, new_pod_args, change_state, mark_as_prune_ready, close_stop_chan, state_beq,
}
use postman_insights_agent.Daemonset.{
  is_phase_running, Daemonset, PodPhase, get_pod_args_from_map, store, signal_to_stop,
  add_pod_args_to_map, change_then, start_api_dump_process, finish, process_ends, runs, prune,
  handle_pod_modify_event, ended_or_failed,
}
use postman_insights_agent.Daemonset.Lifecycle.{get_pod_args-found, signal_to_stop-store}
use postman_insights_agent.Daemonset.Leftovers.{
  Leftover, store-Leftover, unmap-Leftover, other_object, other_uid, Refused, start-Refused,
  modify-Refused,
}

module _ (uid : String) (ref : ℕ) where
  abbrev pub Kept : Daemonset → Type 0
  Kept = Leftover uid ref

  -- A change of state that succeeds is of another object.
  changed_other :
      (d : Daemonset) (r : ℕ) (p : PodArgs) (next : TrafficMonitorState)
      (allowed : List TrafficMonitorState)
      → Refused uid ref next allowed
      → Kept d
      → lookup r d.objects ≡ some p
      → (change_state next allowed p).1 ≡ none
      → r ≢ ref
  changed_other d r p next allowed refused h at changed =
      other_object uid ref d r p h at (λ e _. absurd (refused p e changed))

  pub change_signal-Kept :
      (d : Daemonset) (u : String) (next : TrafficMonitorState) (allowed : List TrafficMonitorState)
      → Refused uid ref next allowed
      → Kept d
      → Kept (change_then d u next allowed (λ d'. signal_to_stop d' u))
  unfolding change_then
  change_signal-Kept d u next allowed refused h =
      option_cases Kept (get_pod_args_from_map d u) (λ _. h)
        λ (r, p) found.
          let (mapped, at) = get_pod_args-found d u r p found in
          option_cases Kept (change_state next allowed p).1
            (λ changed. rw (signal_to_stop-store d u r (change_state next allowed p).0 mapped) (
              store-Leftover uid ref d r _ (changed_other d r p next allowed refused h at changed)
                h))
            (λ _ _. h)

  pub start-Kept : (d : Daemonset) (u : String) → Kept d → Kept (start_api_dump_process d u)
  unfolding start_api_dump_process
  start-Kept d u h =
      option_cases Kept (get_pod_args_from_map d u) (λ _. h)
        λ (r, p) found.
          let (mapped, at) = get_pod_args-found d u r p found in
          option_cases Kept (change_state traffic_monitoring_running (pod_running ∷ []) p).1
            (λ changed.
              store-Leftover uid ref d r _
                (changed_other d r p traffic_monitoring_running (pod_running ∷ [])
                  (start-Refused uid ref) h at changed)
                h)
            (λ _ _. h)

  pub process_ends-Kept :
      (d : Daemonset) (r : ℕ) (failed : Bool) → Kept d → Kept (process_ends d r failed)
  unfolding process_ends
  process_ends-Kept d r failed h =
      option_cases Kept (lookup r d.objects) (λ _. h)
        λ p at.
          if_cases Kept (runs p.apidump_process)
            (λ running.
              store-Leftover uid ref d r (finish failed p)
                (other_object uid ref d r p h at (λ _ n. absurd (ground (arith, running, n)))) h)
            (λ _. h)

  pub add-Kept :
      (d : Daemonset) (u name : String) (s : TrafficMonitorState)
      → Kept d
      → Kept (add_pod_args_to_map d u (new_pod_args name) s).0
  unfolding add_pod_args_to_map
  add-Kept d u name s h =
      option_cases (λ (r : Daemonset × Bool). Kept r.0) (lookup u d.pod_args_by_name_map)
        (λ absent. record {
          pod = h.pod;
          mapped = ground (
            arith,
            lookup-insert u uid d.next_object d.pod_args_by_name_map,
            string_eq.same_iff u uid,
            h.mapped,
            absent,
          );
          found = ground (
            arith,
            lookup-insert d.next_object ref (change_state s [] (new_pod_args name)).0 d.objects,
            nat_beq_iff d.next_object ref,
            h.found,
            h.made,
          );
          made = omega (arith, h.made);
          terminated = h.terminated;
          never_started = h.never_started;
        })
        (λ _ _. h)

  modify_change-Kept :
      (d : Daemonset) (u : String)
      → Kept d
      → Kept (change_then d u pod_running (pod_pending ∷ []) (λ d'. start_api_dump_process d' u))
  unfolding change_then
  modify_change-Kept d u h =
      option_cases Kept (get_pod_args_from_map d u) (λ _. h)
        λ (r, p) found.
          let (mapped, at) = get_pod_args-found d u r p found in
          option_cases Kept (change_state pod_running (pod_pending ∷ []) p).1
            (λ changed. start-Kept (store d r (change_state pod_running (pod_pending ∷ []) p).0) u (
              store-Leftover uid ref d r _
                (changed_other d r p pod_running (pod_pending ∷ []) (modify-Refused uid ref) h at
                  changed)
                h))
            (λ _ _. h)

  pub modify-Kept :
      (d : Daemonset) (u : String) (phase : PodPhase) (inspected : Bool)
      → Kept d
      → Kept (handle_pod_modify_event d u phase inspected)
  unfolding handle_pod_modify_event
  modify-Kept d u phase inspected h =
      option_cases Kept (get_pod_args_from_map d u) (λ _. h)
        λ (r, p) found.
          let (mapped, at) = get_pod_args-found d u r p found in
          if_cases Kept
            (is_phase_running phase && state_beq p.pod_traffic_monitor_state pod_pending)
            (λ test.
              (let other =
                  other_object uid ref d r p h at (λ e _. absurd (ground (arith, test, e))) in
                if_cases Kept inspected (λ _. modify_change-Kept d u h)
                  λ _. unmap-Leftover uid ref d u (other_uid uid ref d u r h mapped other) h))
            (λ _. h)

  pub prune-Kept : (d : Daemonset) (u : String) → Kept d → Kept (prune d u)
  unfolding prune store
  prune-Kept d u h =
      option_cases Kept (get_pod_args_from_map d u) (λ _. h)
        λ (r, p) found.
          let (mapped, at) = get_pod_args-found d u r p found in
          if_cases Kept (ended_or_failed p.pod_traffic_monitor_state)
            (λ over.
              store-Leftover uid ref d r (mark_as_prune_ready p).0
                (other_object uid ref d r p h at (λ e _. absurd (ground (arith, over, e)))) h)
            λ _.
              if_cases Kept (state_beq p.pod_traffic_monitor_state remove_pod_from_map)
                (λ marked.
                  (let other =
                      other_object uid ref d r p h at (λ e _. absurd (ground (arith, marked, e))) in
                    unmap-Leftover uid ref (store d r (close_stop_chan p)) u
                      (other_uid uid ref d u r h mapped other)
                      (store-Leftover uid ref d r (close_stop_chan p) other h)))
                (λ _. h)
