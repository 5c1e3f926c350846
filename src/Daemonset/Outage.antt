-- ===== src/Daemonset/Outage.antt =====
-- cmd/internal/kube/daemonset: the health check when the statuses of the pods cannot be had.
use postman_insights_agent.Prelude.{
  ℕ, ◌+◌, String, ◌≡◌, ◌≢◌, Bool, ◌&&◌, if_cases, inl, inr, true, false, Option, none, some, List,
  [], ◌∷◌, ◌++◌, arith, if◌then◌else◌, any, ◌==◌, nat_eq, string_eq, Bool-cases, Option-cases,
  nat_beq_iff,
}
use postman_insights_agent.Prelude.Dict.{lookup, lookup-insert}
use postman_insights_agent.PodArgs.{
  TrafficMonitorState, new_pod_args, pod_running, pod_terminated, PodArgs, StateError, is_final,
  change_state, send_stop,
}
use postman_insights_agent.Daemonset.{
  Daemonset, get_pod_args_from_map, store, signal_to_stop, change_then, handle_terminated_pod,
  check_status, check_statuses, check_pods_health, detect_unmonitored, keys, NodePod, add_captured,
  add_pod_args_to_map,
}
use postman_insights_agent.Daemonset.Steps.{Inv}
use postman_insights_agent.Daemonset.Histories.{add_captured-Inv, detect_unmonitored-Inv}
use postman_insights_agent.Daemonset.Lifecycle.{
  get_pod_args-found, signal_to_stop-store, get_pod_args-store, change_signal-Inv, gone-Signals,
}

-- What becomes of a pod that is said not to exist.
abbrev pub terminated_by : Option StateError → PodArgs → PodArgs → PodArgs
terminated_by none p q = send_stop q
terminated_by (some _) p q = p

gone : PodArgs → PodArgs
gone p = let r = change_state pod_terminated [] p in terminated_by r.1 p r.0

gone_again : (p : PodArgs) → gone (gone p) ≡ gone p
unfolding gone change_state send_stop
gone_again p = ground arith

gone-terminated :
    (p : PodArgs)
    → is_final p.pod_traffic_monitor_state ≡ false
    → p.pod_traffic_monitor_state ≢ pod_terminated
    → ((gone p).pod_traffic_monitor_state ≡ pod_terminated)
      × ((gone p).stop_signals ≡ p.stop_signals + 1)
unfolding gone change_state send_stop
gone-terminated p f n = ground arith

terminated-Inv : (d : Daemonset) (uid : String) → Inv d → Inv (handle_terminated_pod d uid true)
unfolding handle_terminated_pod
terminated-Inv d uid h = change_signal-Inv d uid pod_terminated [] gone-Signals (λ e. cc) h

-- The change that a pod in the map is given when it is said not to exist.
terminated-found :
    (d : Daemonset) (uid : String) (ref : ℕ) (p : PodArgs)
    → get_pod_args_from_map d uid ≡ some (ref, p)
    → handle_terminated_pod d uid true ≡ (elim (change_state pod_terminated [] p).1 [
      | none ↦ signal_to_stop (store d ref (change_state pod_terminated [] p).0) uid
      | some _ ↦ d
    ])
unfolding handle_terminated_pod change_then
terminated-found d uid ref p e = rw (e, handle_terminated_pod, change_then)

terminated-missing :
    (d : Daemonset) (uid : String)
    → get_pod_args_from_map d uid ≡ none
    → handle_terminated_pod d uid true ≡ d
unfolding handle_terminated_pod change_then
terminated-missing d uid e = rw (e, handle_terminated_pod, change_then)

terminated-gone :
    (d : Daemonset) (uid : String) (ref : ℕ) (p : PodArgs)
    → get_pod_args_from_map d uid ≡ some (ref, p)
    → get_pod_args_from_map (handle_terminated_pod d uid true) uid ≡ some (ref, gone p)
unfolding gone
terminated-gone d uid ref p e =
    let (mapped, at) = get_pod_args-found d uid ref p e in
    let changed = (change_state pod_terminated [] p).0 in
    rw (terminated-found d uid ref p e) (elim (Option-cases (change_state pod_terminated [] p).1) [
      | inl ok ↦
          rw (ok, signal_to_stop-store d uid ref changed mapped)
            (get_pod_args-store d uid ref (send_stop changed) mapped)
      | inr (x, refused) ↦ rw refused e
    ])

-- Another pod is left alone.
store-other :
    (d : Daemonset) (uid : String) (ref r : ℕ) (p q : PodArgs)
    → r ≢ ref
    → get_pod_args_from_map d uid ≡ some (ref, p)
    → get_pod_args_from_map (store d r q) uid ≡ some (ref, p)
unfolding get_pod_args_from_map store
store-other d uid ref r p q n e = ground (arith, lookup-insert r ref q d.objects, nat_beq_iff r ref)

terminated-other :
    (d : Daemonset) (uid other : String) (ref : ℕ) (p : PodArgs)
    → Inv d
    → other ≢ uid
    → get_pod_args_from_map d uid ≡ some (ref, p)
    → get_pod_args_from_map (handle_terminated_pod d other true) uid ≡ some (ref, p)
terminated-other d uid other ref p h n e = elim (Option-cases (get_pod_args_from_map d other)) [
  | inl missing ↦ rw (terminated-missing d other missing) e
  | inr ((r, q), there) ↦
      let (mapped, at) = get_pod_args-found d other r q there in
      let changed = (change_state pod_terminated [] q).0 in
      rw (terminated-found d other r q there)
        (elim (Option-cases (change_state pod_terminated [] q).1) [
          | inl ok ↦
              rw (ok, signal_to_stop-store d other r changed mapped)
                (store-other d uid ref r p (send_stop changed)
                  (λ same.
                    n (
                      h.unshared other uid r mapped (rw same (get_pod_args-found d uid ref p e).0)))
                  e)
          | inr (x, refused) ↦ rw refused e
        ])
]

check_statuses-gone :
    (d : Daemonset) (uid : String) (ref : ℕ) (p : PodArgs) (uids : List String)
    → Inv d
    → get_pod_args_from_map d uid ≡ some (ref, p)
    → get_pod_args_from_map (check_statuses d [] uids) uid
      ≡ some (ref, if any (λ u. u == uid) uids then gone p else p)
unfolding check_statuses check_status lookup
check_statuses-gone d uid ref p [] h e = e
check_statuses-gone d uid ref p (u ∷ uids) h e =
    let d' = handle_terminated_pod d u true in
    elim (Bool-cases (u == uid)) [
      | inl same ↦
          let e' : get_pod_args_from_map d' uid ≡ some (ref, gone p) =
            rw ((string_eq.same_iff u uid).0 same) (terminated-gone d uid ref p e) in
          let ih = check_statuses-gone d' uid ref (gone p) uids (terminated-Inv d u h) e' in
          ground (arith, ih, gone_again p)
      | inr other ↦
          let e' = terminated-other d uid u ref p h (λ z. cc ((string_eq.same_iff u uid).1 z)) e in
          ground (arith, check_statuses-gone d' uid ref p uids (terminated-Inv d u h) e')
    ]

keys-any :
    (uid : String) (ref : ℕ) (m : List (String × ℕ))
    → lookup uid m ≡ some ref
    → any (λ u. u == uid) (keys m) ≡ true
unfolding lookup
keys-any uid ref [] e = cc
keys-any uid ref ((u, r) ∷ m) e = ground (arith, keys-any uid ref m)

any-append_left :
    {A : Type 0} (t : A → Bool) (xs ys : List A) → any t xs ≡ true → any t (xs ++ ys) ≡ true
any-append_left t [] ys e = cc
any-append_left t (x ∷ xs) ys e = ground (arith, any-append_left t xs ys)

-- A pod that is in the map is left alone where another is added.
added-other :
    (d : Daemonset) (uid u : String) (ref : ℕ) (p args : PodArgs) (start : TrafficMonitorState)
    → Inv d
    → get_pod_args_from_map d uid ≡ some (ref, p)
    → get_pod_args_from_map (add_pod_args_to_map d u args start).0 uid ≡ some (ref, p)
unfolding add_pod_args_to_map get_pod_args_from_map
added-other d uid u ref p args start h e =
    let (mapped, at) = get_pod_args-found d uid ref p e in
    let made = h.allocated uid ref mapped in
    elim (Option-cases (lookup u d.pod_args_by_name_map)) [
      | inl missing ↦
          let other : u ≢ uid = λ same. absurd (cc) in
          rw (missing, add_pod_args_to_map)
            (ground (
              arith,
              mapped,
              at,
              lookup-insert u uid d.next_object d.pod_args_by_name_map,
              lookup-insert d.next_object ref (change_state start [] args).0 d.objects,
              string_eq.same_iff u uid,
              nat_beq_iff d.next_object ref,
              other,
              made,
            ))
      | inr (r, there) ↦ rw (there, add_pod_args_to_map) (ground (arith, mapped, at))
    ]

detect-other :
    (d : Daemonset) (uid : String) (ref : ℕ) (p : PodArgs) (pods : List NodePod)
    → Inv d
    → get_pod_args_from_map d uid ≡ some (ref, p)
    → get_pod_args_from_map (detect_unmonitored d pods).0 uid ≡ some (ref, p)
unfolding detect_unmonitored add_captured
detect-other d uid ref p [] h e = e
detect-other d uid ref p (pod ∷ pods) h e =
    detect-other (add_captured d pod).0 uid ref p pods (add_captured-Inv d pod h) (
      if_cases (λ (r : Daemonset × Bool). get_pod_args_from_map r.0 uid ≡ some (ref, p))
        (pod.captured && pod.inspected)
        (λ _. added-other d uid pod.uid ref p (new_pod_args pod.name) pod_running h e) (λ _. e))

-- From a state that keeps the invariant of Steps: when the statuses of the pods cannot be had, then
-- whatever pods the node is found to have, a health check during which no other handler runs terminates
-- each pod of the map that is neither in a final state nor terminated already, and sends its apidump
-- process one more stop signal.
pub check_pods_health-outage :
    (d : Daemonset) (pods : List NodePod) (uid : String) (ref : ℕ) (p : PodArgs)
    → Inv d
    → get_pod_args_from_map d uid ≡ some (ref, p)
    → is_final p.pod_traffic_monitor_state ≡ false
    → p.pod_traffic_monitor_state ≢ pod_terminated
    → (q : PodArgs) × (get_pod_args_from_map (check_pods_health d pods []) uid ≡ some (ref, q))
      × (q.pod_traffic_monitor_state ≡ pod_terminated)
      × (q.stop_signals ≡ p.stop_signals + 1)
unfolding check_pods_health
check_pods_health-outage d pods uid ref p h e f n =
    let (d', added) = detect_unmonitored d pods in
    let all = keys d.pod_args_by_name_map in
    let after =
      check_statuses-gone d' uid ref p (all ++ added) (detect_unmonitored-Inv d pods h)
        (detect-other d uid ref p pods h e) in
    let listed =
      any-append_left (λ u. u == uid) all added
        (keys-any uid ref d.pod_args_by_name_map (get_pod_args-found d uid ref p e).0) in
    (gone p, ground (arith, after, listed), (gone-terminated p f n).0, (gone-terminated p f n).1)
