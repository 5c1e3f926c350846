-- ===== src/PodFilter/Naming.antt =====
-- cmd/internal/kube/daemonset/pod_filter.go: the names that are derived for a pod.
use postman_insights_agent.Prelude.{
  ◌<◌, ◌≡◌, refl, ap, true, false, some, [], ◌∷◌, ◌++◌, arith, ◌==◌, length, take-length_append,
}
use postman_insights_agent.Prelude.Text.{codes, bytes_eq, bytes_beq_iff, avoids, last_index-append}
use postman_insights_agent.Traffic.{Bytes}
use postman_insights_agent.PodFilter.{
  Pod, OwnerReference, controlling_owner, drop_suffix, derive_workload_type, derive_workload_name,
  derive_service_name,
}

-- A name with a suffix behind a dash loses the suffix and the dash.
drop_suffix-append :
    (base hash : Bytes)
    → 0 < length base
    → avoids b'-' hash ≡ true
    → drop_suffix (base ++ b'-' ∷ hash) ≡ base
unfolding drop_suffix
drop_suffix-append base hash h a =
    rw (last_index-append b'-' base hash a, drop_suffix)
      (ground (arith, take-length_append base (b'-' ∷ hash)))

nonempty-beq : (x : Bytes) → 0 < length x → (x == []) ≡ false
nonempty-beq [] h = absurd (omega arith)
nonempty-beq (_ ∷ _) h = refl

named :
    (pod : Pod) (owner : OwnerReference) (deployment hash : Bytes)
    → controlling_owner pod ≡ some owner
    → owner.kind ≡ codes "ReplicaSet"
    → owner.owner_name ≡ deployment ++ b'-' ∷ hash
    → 0 < length deployment
    → avoids b'-' hash ≡ true
    → derive_workload_name pod ≡ deployment
unfolding derive_workload_name
named pod owner deployment hash c k n h a = ground (
  arith,
  bytes_beq_iff owner.kind (codes "ReplicaSet"),
  ap drop_suffix n,
  drop_suffix-append deployment hash h a,
  nonempty-beq deployment h,
)

-- A pod of a Deployment: its owner is a ReplicaSet named after the Deployment, a dash and a hash
-- without a dash. The pod's service is then its namespace, a slash and the Deployment's name, and
-- its type is Deployment, whatever its labels and its own name are.
pub derive-deployment :
    (pod : Pod) (owner : OwnerReference) (deployment hash : Bytes)
    → controlling_owner pod ≡ some owner
    → owner.kind ≡ codes "ReplicaSet"
    → owner.owner_name ≡ deployment ++ b'-' ∷ hash
    → 0 < length deployment
    → avoids b'-' hash ≡ true
    → (derive_service_name pod ≡ pod.namespace ++ b'/' ∷ deployment)
      × (derive_workload_type pod ≡ codes "Deployment")
unfolding derive_service_name derive_workload_type
derive-deployment pod owner deployment hash c k n h a = (
  ap (λ name. pod.namespace ++ b'/' ∷ name) (named pod owner deployment hash c k n h a),
  ground (arith, c, bytes_beq_iff owner.kind (codes "ReplicaSet")),
)
