-- ===== src/PodFilter/Decision.antt =====
-- cmd/internal/kube/daemonset/pod_filter.go: when a pod is captured.
use postman_insights_agent.Prelude.{
  Bool, true, false, ◌||◌, Option, none, some, List, [], ◌∷◌, ◌==◌, any,
}
use postman_insights_agent.Prelude.Text.{codes, bytes_eq}
use postman_insights_agent.Traffic.{Bytes}
use postman_insights_agent.PodFilter.{
  Pod, PodFilter, OwnerReference, Reason, text, annotation_opt_out, annotation_opt_in,
}

abbrev pub passes : Option Reason → Bool
passes none = true
passes (some _) = false

abbrev pub is_listed : Bytes → List Bytes → Bool
is_listed ns = any λ x. x == ns

abbrev pub is_empty {ℓ} : {A : Type ℓ} → List A → Bool
is_empty [] = true
is_empty (_ ∷ _) = false

-- The kinds of long-running controllers.
abbrev pub is_supported : Option OwnerReference → Bool
is_supported none = false
is_supported (some owner) =
    owner.kind == codes "ReplicaSet"
    || (owner.kind == codes "StatefulSet" || owner.kind == codes "DaemonSet")

module _ (equal_fold : Bytes → Bytes → Bool) where
  abbrev pub opted_out_by : Pod → Bool
  opted_out_by pod =
      equal_fold (text annotation_opt_out pod.annotations) (codes "true")
      || equal_fold (text annotation_opt_in pod.annotations) (codes "false")
