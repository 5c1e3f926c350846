-- ===== src/PodArgs/Transitions.antt =====
-- cmd/internal/kube/daemonset/pod_args.go: every branch of the two guarded changes.
use postman_insights_agent.Prelude.{
  ◌≡◌, refl, sym, ◌≢◌, ◌⊎◌, inl, inr, ◌↔◌, true, false, none, some, List, [], ◌∷◌, arith, any,
  Bool-cases,
}
use mathlib.Core.List.{Memᴰ}
use mathlib.Core.List.Memᴰ
use postman_insights_agent.PodArgs.{
  TrafficMonitorState, remove_pod_from_map, traffic_monitoring_failed, traffic_monitoring_ended,
  PodArgs, is_final, is_allowed, state_beq, change_state, mark_from, mark_as_prune_ready,
}

pub state_beq_iff : (a b : TrafficMonitorState) → (state_beq a b ≡ true) ↔ (a ≡ b)
state_beq_iff a b = ground arith

any_iff :
    (s : TrafficMonitorState) (states : List TrafficMonitorState)
    → (any (λ x. state_beq x s) states ≡ true) ↔ Memᴰ s states
any_iff s [] = (λ e. absurd (cc), λ m. elim m [ ])
any_iff s (x ∷ xs) = (
  λ e. elim (Bool-cases (state_beq x s)) [
    | inl same ↦ Memᴰ.head (sym ((state_beq_iff x s).0 same))
    | inr other ↦ Memᴰ.tail ((any_iff s xs).0 (ground (arith, e, other)))
  ],
  λ m. elim (Memᴰ.cases_cons m) [
    | inl e ↦ ground (arith, (state_beq_iff x s).1 (sym e))
    | inr m' ↦ ground (arith, (any_iff s xs).1 m')
  ],
)

is_allowed_iff :
    (s : TrafficMonitorState) (allowed : List TrafficMonitorState)
    → (is_allowed allowed s ≡ true) ↔ ((allowed ≡ []) ⊎ Memᴰ s allowed)
is_allowed_iff s [] = (λ _. inl refl, λ _. refl)
is_allowed_iff s (x ∷ xs) = (
  λ e. inr ((any_iff s (x ∷ xs)).0 e),
  λ h. elim h [ inl e ↦ absurd (cc) | inr m ↦ (any_iff s (x ∷ xs)).1 m ],
)

is_final_iff :
    (s : TrafficMonitorState)
    → (is_final s ≡ false) ↔ (
        (s ≢ traffic_monitoring_ended)
        × (s ≢ traffic_monitoring_failed)
        × (s ≢ remove_pod_from_map))
is_final_iff s = (λ e. (λ z. cc, λ z. cc, λ z. cc), λ (x, y, z). ground (arith, x, y, z))

accepted_iff :
    (next : TrafficMonitorState) (allowed : List TrafficMonitorState) (p : PodArgs)
    → ((change_state next allowed p).1 ≡ none) ↔ (
        (is_final p.pod_traffic_monitor_state ≡ false)
        × (is_allowed allowed p.pod_traffic_monitor_state ≡ true)
        × (p.pod_traffic_monitor_state ≢ next))
unfolding change_state
accepted_iff next allowed p =
    let same = state_beq_iff p.pod_traffic_monitor_state next in
    (λ e. (ground arith, ground arith, λ z. ground (arith, same)), λ e. ground (arith, same))

-- A change is made exactly when the monitoring of the pod has neither ended nor failed and the pod is
-- not marked for removal, the current state is in the list of allowed states or that list is empty, and
-- the next state is another one. It then sets the state and nothing else, and a refused change leaves
-- the pod as it was.
pub change_state_iff :
    (next : TrafficMonitorState) (allowed : List TrafficMonitorState) (p : PodArgs)
    → (((change_state next allowed p).1 ≡ none) ↔ (
        (p.pod_traffic_monitor_state ≢ traffic_monitoring_ended)
        × (p.pod_traffic_monitor_state ≢ traffic_monitoring_failed)
        × (p.pod_traffic_monitor_state ≢ remove_pod_from_map)
        × ((allowed ≡ []) ⊎ Memᴰ p.pod_traffic_monitor_state allowed)
        × (p.pod_traffic_monitor_state ≢ next)))
      × ((change_state next allowed p).0 ≡ elim (change_state next allowed p).1 [
        | none ↦ record p { pod_traffic_monitor_state = next }
        | some _ ↦ p
      ])
unfolding change_state
change_state_iff next allowed p =
    let s = p.pod_traffic_monitor_state in
    let accepted = accepted_iff next allowed p in
    let final = is_final_iff s in
    let member = is_allowed_iff s allowed in
    (
      (
        λ e. let (f, a, n) = accepted.0 e in let (x, y, z) = final.0 f in (x, y, z, member.0 a, n),
        λ h. let (x, y, z, m, n) = h in accepted.1 (final.1 (x, y, z), member.1 m, n),
      ),
      ground arith,
    )

mark_iff :
    (s : TrafficMonitorState) (p : PodArgs)
    → ((mark_from s p).1 ≡ none)
      ↔ ((s ≡ traffic_monitoring_ended) ⊎ (s ≡ traffic_monitoring_failed))
unfolding mark_from
mark_iff s p = (λ e. ground arith, λ e. ground arith)

-- A pod is marked for removal exactly when its monitoring has ended or failed; a refused mark
-- leaves the pod as it was.
pub mark_as_prune_ready_iff :
    (p : PodArgs)
    → (((mark_as_prune_ready p).1 ≡ none) ↔ (
        (p.pod_traffic_monitor_state ≡ traffic_monitoring_ended)
        ⊎ (p.pod_traffic_monitor_state ≡ traffic_monitoring_failed)))
      × ((mark_as_prune_ready p).0 ≡ elim (mark_as_prune_ready p).1 [
        | none ↦ record p { pod_traffic_monitor_state = remove_pod_from_map }
        | some _ ↦ p
      ])
unfolding mark_as_prune_ready
mark_as_prune_ready_iff p = (mark_iff p.pod_traffic_monitor_state p, ground arith)
