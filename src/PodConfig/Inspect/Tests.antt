-- ===== src/PodConfig/Inspect/Tests.antt =====
-- cmd/internal/kube/daemonset/kube_events_worker.go: a pod of two containers, one with a project.
use postman_insights_agent.Prelude.{
  ℕ, refl, true, false, Option, none, some, List, [], ◌∷◌, leb, ◌==◌,
}
use postman_insights_agent.Prelude.Dict.{insert}
use postman_insights_agent.Prelude.Text.{bytes_eq}
use postman_insights_agent.Traffic.{Bytes}
use postman_insights_agent.PodFilter.{Pod}
use postman_insights_agent.PodConfig.{
  EnvVar, insights_project_id, insights_api_key, ContainerConfig, ConfigLibrary, container_config,
  select_main_container, config_map, validate_container_config,
}
use postman_insights_agent.PodConfig.Inspect.{DaemonConfig, inspect_pod_for_env_vars, new_settings}
use postman_insights_agent.PodConfig.Inspect.Identity.{Identified, Limited}
use postman_insights_agent.PodConfig.Inspect.Configured.{inspect-Identified}

abbrev library : ConfigLibrary
library = record {
  Rate = ℕ;
  zero_rate = 0;
  default_rate_limit = 12000;
  at_most_zero = λ r. leb r 0;
  is_uuid = λ t. t == 7 ∷ [];
  parse_service_id = id_of;
  parse_bool = λ _. none;
  parse_float = λ _. none;
  unmarshal_strings = λ _. none;
}
  where
    id_of : Bytes → Option Bytes
    id_of [] = none
    id_of (c ∷ cs) = some (c ∷ cs)

abbrev project_env : EnvVar → Option Bytes
project_env insights_project_id = some (1 ∷ [])
project_env insights_api_key = some (2 ∷ [])
project_env _ = none

abbrev daemon : DaemonConfig library
daemon = record {
  discovery_mode = false;
  insights_environment = [];
  insights_api_key = [];
  cluster_name = [];
  insights_repro_mode_enabled = true;
  insights_rate_limit = 0;
  drop_nginx_traffic = false;
}

abbrev pod : Pod
pod = record {
  pod_name = 9 ∷ [];
  namespace = [];
  labels = [];
  annotations = [];
  owner_references = [];
}

abbrev containers : List (Bytes × Option (EnvVar → Option Bytes))
containers = (10 ∷ [], none) ∷ (11 ∷ [], some project_env) ∷ []

inspect-Identified_example :
    let p =
      (inspect_pod_for_env_vars library
        (λ m. m)
        daemon
        pod
        (some containers)
        (new_settings library)).0 in
    Identified library daemon p × Limited library daemon p
unfolding inspect_pod_for_env_vars select_main_container config_map insert validate_container_config
    container_config
inspect-Identified_example =
    inspect-Identified library daemon refl (λ m. m) pod (some containers) refl refl

abbrev with_project : Bytes × ContainerConfig
with_project = (11 ∷ [], container_config project_env)
