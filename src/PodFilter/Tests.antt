-- ===== src/PodFilter/Tests.antt =====
-- cmd/internal/kube/daemonset/pod_filter.go: a pod of a Deployment.
use postman_insights_agent.Prelude.{Bool, true, none, some, List, [], ◌∷◌, ◌==◌}
use postman_insights_agent.Prelude.Text.{codes, bytes_eq}
use postman_insights_agent.Traffic.{Bytes}
use postman_insights_agent.PodFilter.{Pod, OwnerReference}

abbrev equal_fold : Bytes → Bytes → Bool
equal_fold a b = a == b

abbrev owner : OwnerReference
owner = record {
  kind = codes "ReplicaSet";
  owner_name = codes "shop-web-5d9f";
  controller = some true;
}

abbrev other_owner : OwnerReference
other_owner = record { kind = codes "Backup"; owner_name = codes "nightly"; controller = none }

abbrev pod : Pod
pod = record {
  pod_name = codes "shop-web-5d9f-x2";
  namespace = codes "prod";
  labels = (codes "tier", codes "front") ∷ [];
  annotations = [];
  owner_references = other_owner ∷ owner ∷ [];
}

abbrev default_excluded : List Bytes
default_excluded = codes "kube-system" ∷ []

abbrev included : List Bytes
included = codes "prod" ∷ []

abbrev exclude_labels : List (Bytes × Bytes)
exclude_labels = (codes "tier", codes "batch") ∷ []
