-- ===== src/Daemonset/Steps.antt =====
-- cmd/internal/kube/daemonset: what each handler may do to the pods, as three kinds of steps that
-- keep the pods sound.
use postman_insights_agent.Prelude.{
  ℕ, suc, ◌≤◌, ◌<◌, String, ◌≡◌, refl, ◌≢◌, sym, subst, ◌∙◌, inl, inr, ◌⊎◌, Bool, false, none, some,
  arith, nat_eq, string_eq, nat_beq_iff,
}
use postman_insights_agent.Prelude.Dict.{
  lookup, insert, delete, lookup-insert, insert-cases, delete-cases,
}
use postman_insights_agent.PodArgs.{
  TrafficMonitorState, unset, pod_pending, pod_running, pod_succeeded, pod_failed, pod_terminated,
  remove_pod_from_map, traffic_monitoring_running, traffic_monitoring_failed,
  traffic_monitoring_ended, daemon_set_shutdown, PodArgs, ApidumpProcess, not_started, is_running,
  has_ended,
}
use postman_insights_agent.Daemonset.{Daemonset, new_daemonset, store}

-- What goes with each state: the process, at most so many stop signals, an open channel.
abbrev pub Fits : TrafficMonitorState → ApidumpProcess → ℕ → Bool → Type 0
Fits unset process signals closed = (process ≡ not_started) × (signals ≡ 0) × (closed ≡ false)
Fits pod_pending process signals closed = (process ≡ not_started) × (signals ≡ 0) × (closed ≡ false)
Fits pod_running process signals closed = (process ≡ not_started) × (signals ≡ 0) × (closed ≡ false)
Fits traffic_monitoring_running process signals closed =
    (process ≡ is_running) × (signals ≡ 0) × (closed ≡ false)
Fits pod_succeeded process signals closed =
    (process ≡ is_running) × (signals ≡ 1) × (closed ≡ false)
Fits pod_failed process signals closed = (process ≡ is_running) × (signals ≡ 1) × (closed ≡ false)
Fits pod_terminated process signals closed =
    (((process ≡ not_started) × (signals ≤ 1)) ⊎ ((process ≡ is_running) × (signals ≤ 2)))
    × (closed ≡ false)
Fits daemon_set_shutdown process signals closed =
    (((process ≡ not_started) × (signals ≤ 2)) ⊎ ((process ≡ is_running) × (signals ≤ 3)))
    × (closed ≡ false)
Fits traffic_monitoring_ended process signals closed =
    (process ≡ has_ended) × (signals ≤ 3) × (closed ≡ false)
Fits traffic_monitoring_failed process signals closed =
    (process ≡ has_ended) × (signals ≤ 3) × (closed ≡ false)
Fits remove_pod_from_map process signals closed = (process ≡ has_ended) × (signals ≤ 3)

pub record IsSound (p : PodArgs) : Type 0 where
  pub fits : Fits p.pod_traffic_monitor_state p.apidump_process p.stop_signals p.stop_chan_closed
  pub no_panic : p.channel_panic ≡ false

-- What is in the map has an open channel, and has not been told of the shutdown.
pub record IsLive (p : PodArgs) : Type 0 where
  pub open_channel : p.stop_chan_closed ≡ false
  pub not_shut_down : p.pod_traffic_monitor_state ≢ daemon_set_shutdown

pub record Inv (d : Daemonset) : Type 0 where
  pub sound : (ref : ℕ) (p : PodArgs) → lookup ref d.objects ≡ some p → IsSound p
  pub fresh : (ref : ℕ) → d.next_object ≤ ref → lookup ref d.objects ≡ none
  pub allocated :
      (uid : String) (ref : ℕ) → lookup uid d.pod_args_by_name_map ≡ some ref → ref < d.next_object
  pub unshared :
      (uid uid' : String) (ref : ℕ)
      → lookup uid d.pod_args_by_name_map ≡ some ref
      → lookup uid' d.pod_args_by_name_map ≡ some ref
      → uid ≡ uid'
  pub live :
      (uid : String) (ref : ℕ) (p : PodArgs)
      → lookup uid d.pod_args_by_name_map ≡ some ref
      → lookup ref d.objects ≡ some p
      → IsLive p

pub new_daemonset-Inv : Inv new_daemonset
unfolding new_daemonset lookup
new_daemonset-Inv = record {
  sound = λ ref p e. absurd (cc);
  fresh = λ ref h. refl;
  allocated = λ uid ref e. absurd (cc);
  unshared = λ uid uid' ref e e'. absurd (cc);
  live = λ uid ref p e e'. absurd (cc);
}

-- An object is replaced by a sound one, which stays live if it was.
pub store-Inv :
    (d : Daemonset) (ref : ℕ) (p q : PodArgs)
    → lookup ref d.objects ≡ some p
    → IsSound q
    → (IsLive p → IsLive q)
    → Inv d
    → Inv (store d ref q)
unfolding store
store-Inv d ref p q found s l h = record {
  sound = λ r x e. elim (insert-cases ref r q d.objects e) [
    | inl (_, qx) ↦ subst IsSound qx s
    | inr (_, old) ↦ h.sound r x old
  ];
  fresh = λ r b. ground (arith, lookup-insert ref r q d.objects, h.fresh r b, nat_beq_iff ref r);
  allocated = h.allocated;
  unshared = h.unshared;
  live = λ uid r x e e'. elim (insert-cases ref r q d.objects e') [
    | inl (rr, qx) ↦ subst IsLive qx (l (h.live uid r p e (rw rr found)))
    | inr (_, old) ↦ h.live uid r x e old
  ];
}

-- A pod leaves the map, and its object is replaced by a sound one.
pub remove-Inv :
    (d : Daemonset) (uid : String) (ref : ℕ) (p q : PodArgs)
    → lookup uid d.pod_args_by_name_map ≡ some ref
    → lookup ref d.objects ≡ some p
    → IsSound q
    → Inv d
    → Inv (record (store d ref q) { pod_args_by_name_map = delete uid d.pod_args_by_name_map })
unfolding store
remove-Inv d uid ref p q mapped found s h = record {
  sound = λ r x e. elim (insert-cases ref r q d.objects e) [
    | inl (_, qx) ↦ subst IsSound qx s
    | inr (_, old) ↦ h.sound r x old
  ];
  fresh = λ r b. ground (arith, lookup-insert ref r q d.objects, h.fresh r b, nat_beq_iff ref r);
  allocated = λ u r e. h.allocated u r (delete-cases uid u d.pod_args_by_name_map e).1;
  unshared = λ u v r e f.
      h.unshared u v r (delete-cases uid u d.pod_args_by_name_map e).1
        (delete-cases uid v d.pod_args_by_name_map f).1;
  live = λ u r x e e'.
      let (other, was) = delete-cases uid u d.pod_args_by_name_map e in
      elim (insert-cases ref r q d.objects e') [
        | inl (rr, _) ↦ absurd (other (h.unshared u uid r was (rw rr mapped)))
        | inr (_, old) ↦ h.live u r x was old
      ];
}

-- A pod leaves the map, and its object stays as it is.
pub unmap-Inv :
    (d : Daemonset) (uid : String)
    → Inv d
    → Inv (record d { pod_args_by_name_map = delete uid d.pod_args_by_name_map })
unmap-Inv d uid h = record {
  sound = h.sound;
  fresh = h.fresh;
  allocated = λ u r e. h.allocated u r (delete-cases uid u d.pod_args_by_name_map e).1;
  unshared = λ u v r e f.
      h.unshared u v r (delete-cases uid u d.pod_args_by_name_map e).1
        (delete-cases uid v d.pod_args_by_name_map f).1;
  live = λ u r x e e'. h.live u r x (delete-cases uid u d.pod_args_by_name_map e).1 e';
}

-- A new object is put into the map.
pub allocate-Inv :
    (d : Daemonset) (uid : String) (q : PodArgs)
    → IsSound q
    → IsLive q
    → Inv d
    → Inv (record {
      objects = insert d.next_object q d.objects;
      next_object = suc d.next_object;
      pod_args_by_name_map = insert uid d.next_object d.pod_args_by_name_map;
    })
allocate-Inv d uid q s l h = record {
  sound = λ r x e. elim (insert-cases d.next_object r q d.objects e) [
    | inl (_, qx) ↦ subst IsSound qx s
    | inr (_, old) ↦ h.sound r x old
  ];
  fresh = λ r b. ground (
    arith,
    lookup-insert d.next_object r q d.objects,
    h.fresh r (omega arith),
    nat_beq_iff d.next_object r,
  );
  allocated = λ u r e. elim (insert-cases uid u d.next_object d.pod_args_by_name_map e) [
    | inl (_, n) ↦ omega arith
    | inr (_, old) ↦ omega (arith, h.allocated u r old)
  ];
  unshared = λ u v r e f. elim (insert-cases uid u d.next_object d.pod_args_by_name_map e) [
    | inl (uu, n) ↦ elim (insert-cases uid v d.next_object d.pod_args_by_name_map f) [
      | inl (vv, _) ↦ uu ∙ sym vv
      | inr (_, old) ↦ absurd (omega (arith, h.allocated v r old))
    ]
    | inr (_, old) ↦ elim (insert-cases uid v d.next_object d.pod_args_by_name_map f) [
      | inl (_, n) ↦ absurd (omega (arith, h.allocated u r old))
      | inr (_, old') ↦ h.unshared u v r old old'
    ]
  ];
  live = λ u r x e e'. elim (insert-cases d.next_object r q d.objects e') [
    | inl (_, qx) ↦ subst IsLive qx l
    | inr (other, old) ↦ elim (insert-cases uid u d.next_object d.pod_args_by_name_map e) [
      | inl (_, n) ↦ absurd (other (sym n))
      | inr (_, was) ↦ h.live u r x was old
    ]
  ];
}
