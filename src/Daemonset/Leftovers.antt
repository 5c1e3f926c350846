-- ===== src/Daemonset/Leftovers.antt =====
-- cmd/internal/kube/daemonset: pods that are terminated before their apidump process was started.
use postman_insights_agent.Prelude.{
  ℕ, ◌<◌, String, ◌≡◌, ◌≢◌, sym, ◌∙◌, ap, none, some, List, [], ◌∷◌, arith, string_eq, nat_eq,
  nat_beq_iff,
}
use postman_insights_agent.Prelude.Dict.{lookup, delete, lookup-insert, lookup-delete}
use postman_insights_agent.PodArgs.{
  TrafficMonitorState, pod_pending, pod_running, pod_terminated, traffic_monitoring_running,
  PodArgs, change_state, not_started,
}
use postman_insights_agent.Daemonset.{Daemonset, store}

-- The map has the pod, and its object is terminated with no process ever started.
pub record Leftover (uid : String) (ref : ℕ) (d : Daemonset) : Type 0 where
  pub pod : PodArgs
  pub mapped : lookup uid d.pod_args_by_name_map ≡ some ref
  pub found : lookup ref d.objects ≡ some pod
  pub made : ref < d.next_object
  pub terminated : pod.pod_traffic_monitor_state ≡ pod_terminated
  pub never_started : pod.apidump_process ≡ not_started

module _ (uid : String) (ref : ℕ) where
  -- Another object is replaced.
  pub store-Leftover :
      (d : Daemonset) (r : ℕ) (q : PodArgs)
      → r ≢ ref
      → Leftover uid ref d
      → Leftover uid ref (store d r q)
  unfolding store
  store-Leftover d r q other h = record {
    pod = h.pod;
    mapped = h.mapped;
    found = ground (arith, lookup-insert r ref q d.objects, nat_beq_iff r ref, h.found);
    made = h.made;
    terminated = h.terminated;
    never_started = h.never_started;
  }

  -- Another pod leaves the map.
  pub unmap-Leftover :
      (d : Daemonset) (u : String)
      → u ≢ uid
      → Leftover uid ref d
      → Leftover uid ref (record d { pod_args_by_name_map = delete u d.pod_args_by_name_map })
  unmap-Leftover d u other h = record {
    pod = h.pod;
    mapped =
        ground
          (arith, lookup-delete u uid d.pod_args_by_name_map, string_eq.same_iff u uid, h.mapped);
    found = h.found;
    made = h.made;
    terminated = h.terminated;
    never_started = h.never_started;
  }

  -- An object that is not terminated, or whose process was started, is another one.
  pub other_object :
      (d : Daemonset) (r : ℕ) (p : PodArgs)
      → Leftover uid ref d
      → lookup r d.objects ≡ some p
      → (p.pod_traffic_monitor_state ≡ pod_terminated → p.apidump_process ≡ not_started → r ≢ ref)
      → r ≢ ref
  other_object d r p h at differs same =
      let e : some p ≡ some h.pod = sym at ∙ ap (λ x. lookup x d.objects) same ∙ h.found in
      differs (ground (arith, e, h.terminated)) (ground (arith, e, h.never_started)) same

  pub other_uid :
      (d : Daemonset) (u : String) (r : ℕ)
      → Leftover uid ref d
      → lookup u d.pod_args_by_name_map ≡ some r
      → r ≢ ref
      → u ≢ uid
  other_uid d u r h mapped other same =
      let e : some r ≡ some ref =
        sym mapped ∙ ap (λ x. lookup x d.pod_args_by_name_map) same ∙ h.mapped in
      other (ground (arith, e))

  -- A change of state that nothing makes from `pod_terminated`.
  abbrev pub Refused : TrafficMonitorState → List TrafficMonitorState → Type 0
  Refused next allowed =
      (p : PodArgs)
      → p.pod_traffic_monitor_state ≡ pod_terminated
      → (change_state next allowed p).1 ≢ none

  pub from_running-Refused :
      (next : TrafficMonitorState) → Refused next (traffic_monitoring_running ∷ [])
  unfolding change_state
  from_running-Refused next p e n = ground (arith, e, n)

  pub again-Refused : Refused pod_terminated []
  unfolding change_state
  again-Refused p e n = ground (arith, e, n)

  pub start-Refused : Refused traffic_monitoring_running (pod_running ∷ [])
  unfolding change_state
  start-Refused p e n = ground (arith, e, n)

  pub modify-Refused : Refused pod_running (pod_pending ∷ [])
  unfolding change_state
  modify-Refused p e n = ground (arith, e, n)
