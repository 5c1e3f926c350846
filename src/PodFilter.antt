-- ===== src/PodFilter.antt =====
-- cmd/internal/kube/daemonset/pod_filter.go: which pods discovery mode captures, and the names that
-- it derives for them. Texts are byte strings. `equal_fold` is strings.EqualFold; the default
-- namespaces come from a configuration file.
pub mod Decision
pub mod Naming
mod Tests
use postman_insights_agent.Prelude.{
  ℕ, ◌<◌, ◌≡◌, Bool, true, false, not, ◌&&◌, ◌||◌, Option, none, some, List, [], ◌∷◌, ◌++◌, arith,
  if◌then◌else◌, ◌==◌, ltb, length, take,
}
use postman_insights_agent.Prelude.Dict.{lookup, insert}
use postman_insights_agent.Prelude.Text.{codes, bytes_eq, last_index}
use postman_insights_agent.Traffic.{Bytes}

-- metav1.OwnerReference; `controller` is a pointer to a Boolean.
pub record OwnerReference : Type 0 where
  pub kind : Bytes
  pub owner_name : Bytes
  pub controller : Option Bool

-- The parts of corev1.Pod that the filter reads.
pub record Pod : Type 0 where
  pub pod_name : Bytes
  pub namespace : Bytes
  pub labels : List (Bytes × Bytes)
  pub annotations : List (Bytes × Bytes)
  pub owner_references : List OwnerReference

pub record PodFilter : Type 0 where
  pub agent_pod_name : Bytes
  pub include_namespaces : List (Bytes × Bool)
  pub exclude_namespaces : List (Bytes × Bool)
  pub include_labels : List (Bytes × Bytes)
  pub exclude_labels : List (Bytes × Bytes)

pub data Reason : Type 0 where
  own_pod : Reason
  excluded_namespace : Bytes → Reason
  namespace_not_included : Bytes → Reason
  opted_out : Reason
  enabled_set_to_false : Reason
  matches_exclude_label : Bytes → Bytes → Reason
  lacks_include_label : Bytes → Bytes → Reason
  standalone_pod : Reason
  ephemeral_workload : Reason
  unsupported_controller : Bytes → Reason
  passed_all_filters : Reason

pub record FilterResult : Type 0 where
  pub should_capture : Bool
  pub reason : Reason
  pub service_name : Bytes

-- The maps of namespaces, all of whose values are true.
pub add_namespaces : List Bytes → List (Bytes × Bool) → List (Bytes × Bool)
add_namespaces [] m = m
add_namespaces (ns ∷ nss) m = add_namespaces nss (insert ns true m)

-- NewPodFilter, with the default namespaces as read from the file.
pub new_pod_filter :
    List Bytes
    → Bytes
    → List Bytes
    → List Bytes
    → List (Bytes × Bytes)
    → List (Bytes × Bytes)
    → PodFilter
unfolding add_namespaces
new_pod_filter default_excluded agent_pod_name include exclude include_labels exclude_labels =
    record {
      agent_pod_name = agent_pod_name;
      include_namespaces = add_namespaces include [];
      exclude_namespaces = add_namespaces exclude (add_namespaces default_excluded []);
      include_labels = include_labels;
      exclude_labels = exclude_labels;
    }

-- m[key] of a Go map: the zero value if the key is missing.
abbrev pub flag : Bytes → List (Bytes × Bool) → Bool
flag k m = elim (lookup k m) [ none ↦ false | some b ↦ b ]

abbrev pub text : Bytes → List (Bytes × Bytes) → Bytes
text k m = elim (lookup k m) [ none ↦ [] | some v ↦ v ]

-- A check either passes, or gives the reason why not.
pub check_namespace : PodFilter → Bytes → Option Reason
check_namespace f ns =
    if flag ns f.exclude_namespaces
    then some (excluded_namespace ns)
    else if ltb 0 (length f.include_namespaces) && not (flag ns f.include_namespaces)
    then some (namespace_not_included ns)
    else none

-- The pod has the label, with this value.
abbrev pub has_label : List (Bytes × Bytes) → Bytes → Bytes → Bool
has_label labels k v = elim (lookup k labels) [ none ↦ false | some w ↦ w == v ]

-- The two loops, in the order in which the map is ranged over.
check_exclude_labels : List (Bytes × Bytes) → List (Bytes × Bytes) → Option Reason
check_exclude_labels labels [] = none
check_exclude_labels labels ((k, v) ∷ rest) =
    let later = check_exclude_labels labels rest in
    if has_label labels k v then some (matches_exclude_label k v) else later

check_include_labels : List (Bytes × Bytes) → List (Bytes × Bytes) → Option Reason
check_include_labels labels [] = none
check_include_labels labels ((k, v) ∷ rest) =
    let later = check_include_labels labels rest in
    if has_label labels k v then later else some (lacks_include_label k v)

abbrev pub annotation_opt_out : Bytes
annotation_opt_out = codes "postman.com/insights-disabled"

abbrev pub annotation_opt_in : Bytes
annotation_opt_in = codes "postman.com/insights-enabled"

abbrev or_else : Option Reason → Option Reason → Option Reason
or_else (some r) _ = some r
or_else none r = r

-- The first reference that is the controller; else the first of all.
first_controller : List OwnerReference → Option OwnerReference
first_controller [] = none
first_controller (r ∷ rs) =
    let later = first_controller rs in
    elim r.controller [ none ↦ later | some c ↦ if c then some r else later ]

pub controlling_owner : Pod → Option OwnerReference
unfolding first_controller
controlling_owner pod = elim pod.owner_references [
  | [] ↦ none
  | r ∷ _ ↦ elim (first_controller pod.owner_references) [ some c ↦ some c | none ↦ some r ]
]

-- The switch on the kind.
check_kind : Bytes → Option Reason
check_kind kind =
    if kind == codes "ReplicaSet" || (kind == codes "StatefulSet" || kind == codes "DaemonSet")
    then none
    else if kind == codes "Job" || kind == codes "CronJob"
    then some ephemeral_workload
    else some (unsupported_controller kind)

pub check_controller_type : Pod → Option Reason
unfolding check_kind
check_controller_type pod = elim (controlling_owner pod) [
  | none ↦ some standalone_pod
  | some owner ↦ check_kind owner.kind
]

-- The name without what stands from its last dash on, unless that is all of it.
pub drop_suffix : Bytes → Bytes
drop_suffix name = elim (last_index b'-' name) [
  | none ↦ name
  | some idx ↦ if ltb 0 idx then take idx name else name
]

pub derive_workload_type : Pod → Bytes
derive_workload_type pod = elim (controlling_owner pod) [
  | none ↦ []
  | some owner ↦ if owner.kind == codes "ReplicaSet" then codes "Deployment" else owner.kind
]

name_from_labels : Pod → Bytes
name_from_labels pod = elim (lookup (codes "app.kubernetes.io/name") pod.labels) [
  | some name ↦ name
  | none ↦ elim (lookup (codes "app") pod.labels) [
    | some name ↦ name
    | none ↦ drop_suffix pod.pod_name
  ]
]

abbrev owner_workload : OwnerReference → Bytes
owner_workload owner =
    if owner.kind == codes "ReplicaSet" then drop_suffix owner.owner_name else owner.owner_name

pub derive_workload_name : Pod → Bytes
unfolding name_from_labels
derive_workload_name pod = elim (controlling_owner pod) [
  | none ↦ name_from_labels pod
  | some owner ↦ if owner_workload owner == [] then name_from_labels pod else owner_workload owner
]

pub derive_service_name : Pod → Bytes
derive_service_name pod = pod.namespace ++ b'/' ∷ derive_workload_name pod

module _ (equal_fold : Bytes → Bytes → Bool) where
  pub check_labels_and_annotations : PodFilter → Pod → Option Reason
  unfolding check_exclude_labels check_include_labels
  check_labels_and_annotations f pod =
      if equal_fold (text annotation_opt_out pod.annotations) (codes "true")
      then some opted_out
      else if equal_fold (text annotation_opt_in pod.annotations) (codes "false")
      then some enabled_set_to_false
      else or_else (check_exclude_labels pod.labels f.exclude_labels)
          (check_include_labels pod.labels f.include_labels)

  abbrev skipped : Reason → FilterResult
  skipped r = record { should_capture = false; reason = r; service_name = [] }

  pub evaluate : PodFilter → Pod → FilterResult
  evaluate f pod =
      if not (f.agent_pod_name == []) && pod.pod_name == f.agent_pod_name
      then skipped own_pod
      else elim (or_else (check_namespace f pod.namespace)
          (or_else (check_labels_and_annotations f pod) (check_controller_type pod))) [
            | some r ↦ skipped r
            | none ↦ record {
              should_capture = true;
              reason = passed_all_filters;
              service_name = derive_service_name pod;
            }
          ]
