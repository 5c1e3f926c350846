-- ===== src/PodConfig.antt =====
-- cmd/internal/kube/daemonset/kube_events_worker.go: the configuration of a pod, from the environment
-- variables of its containers. Texts are byte strings; a Go map of containers is a list in the order
-- in which Go ranges over it.
pub mod Inspect
pub mod Selection
use postman_insights_agent.Prelude.{
  ℕ, suc, ◌+◌, Bool, true, false, not, ◌&&◌, ◌||◌, Option, none, some, List, [], ◌∷◌, ◌++◌, ltb,
  if◌then◌else◌, ◌==◌,
}
use postman_insights_agent.Prelude.Dict.{lookup, insert}
use postman_insights_agent.Prelude.Text.{bytes_eq}
use postman_insights_agent.Traffic.{Bytes}
use postman_insights_agent.PodFilter.{
  Pod, derive_service_name, derive_workload_name, derive_workload_type,
}

-- The environment variables, by the names of their constants.
pub data EnvVar : Type 0 where
  insights_project_id insights_api_key insights_workspace_id insights_system_env : EnvVar
  insights_disable_repro_mode insights_drop_nginx_traffic insights_agent_rate_limit : EnvVar
  insights_always_capture_payloads insights_service_name : EnvVar

pub record RequiredConfig : Type 0 where
  pub project_id : Bytes
  pub api_key : Bytes
  pub workspace_id : Bytes
  pub system_env : Bytes

pub record ContainerConfig : Type 0 where
  pub required : RequiredConfig
  pub disable_repro_mode : Bytes
  pub drop_nginx_traffic : Bytes
  pub agent_rate_limit : Bytes
  pub always_capture_payloads : Bytes
  pub service_name : Bytes

pub record ValidationResult : Type 0 where
  pub valid_attr_count : ℕ
  pub missing_attrs : List EnvVar
  pub validation_errors : List EnvVar

pub data ConfigError : Type 0 where
  no_container_uuids no_containers : ConfigError
  invalid_configuration : List EnvVar → ConfigError
  all_required_absent : List EnvVar → ConfigError
  required_missing : List EnvVar → ConfigError
  invalid_project_id mutually_exclusive invalid_workspace_id : ConfigError
  system_env_required invalid_system_env no_api_key no_cluster_name : ConfigError

-- What is called of libraries: uuid.Parse and akid.ParseIDAs, strconv.ParseBool and ParseFloat with
-- the floats, and json.Unmarshal of a list of strings. `at_most_zero` is the test
-- `<= 0.0`, which NaN does not pass.
pub record ConfigLibrary : Type 1 where
  pub Rate : Type 0
  pub zero_rate : Rate
  pub default_rate_limit : Rate
  pub at_most_zero : Rate → Bool
  pub is_uuid : Bytes → Bool
  pub parse_service_id : Bytes → Option Bytes
  pub parse_bool : Bytes → Option Bool
  pub parse_float : Bytes → Option Rate
  pub unmarshal_strings : Bytes → Option (List Bytes)

abbrev pub is_empty : Bytes → Bool
is_empty text = text == []

-- An environment variable that is not set is left at the zero value.
abbrev or_empty : Option Bytes → Bytes
or_empty none = []
or_empty (some v) = v

pub container_config : (EnvVar → Option Bytes) → ContainerConfig
container_config env_vars = record {
  required = record {
    project_id = or_empty (env_vars insights_project_id);
    api_key = or_empty (env_vars insights_api_key);
    workspace_id = or_empty (env_vars insights_workspace_id);
    system_env = or_empty (env_vars insights_system_env);
  };
  disable_repro_mode = or_empty (env_vars insights_disable_repro_mode);
  drop_nginx_traffic = or_empty (env_vars insights_drop_nginx_traffic);
  agent_rate_limit = or_empty (env_vars insights_agent_rate_limit);
  always_capture_payloads = or_empty (env_vars insights_always_capture_payloads);
  service_name = or_empty (env_vars insights_service_name);
}

abbrev pub empty_config : ContainerConfig
empty_config = container_config (λ _. none)

-- The containers of which GetEnvVars succeeds.
pub config_map :
    List (Bytes × Option (EnvVar → Option Bytes))
    → List (Bytes × ContainerConfig)
    → List (Bytes × ContainerConfig)
config_map [] m = m
config_map ((_, none) ∷ cs) m = config_map cs m
config_map ((uuid, some env_vars) ∷ cs) m =
    config_map cs (insert uuid (container_config env_vars) m)

module _ (lib : ConfigLibrary) where
  -- One attribute that must be a UUID.
  pub check_uuid : EnvVar → Bytes → ValidationResult → ValidationResult
  check_uuid name value r =
      if is_empty value
      then record r { missing_attrs = r.missing_attrs ++ name ∷ [] }
      else if lib.is_uuid value
      then record r { valid_attr_count = suc r.valid_attr_count }
      else record r { validation_errors = r.validation_errors ++ name ∷ [] }

  pub check_present : EnvVar → Bytes → ValidationResult → ValidationResult
  check_present name value r =
      if is_empty value
      then record r { missing_attrs = r.missing_attrs ++ name ∷ [] }
      else record r { valid_attr_count = suc r.valid_attr_count }

  pub validate_container_config : RequiredConfig → ValidationResult
  unfolding check_uuid check_present
  validate_container_config cfg =
      let start : ValidationResult = record {
        valid_attr_count = 0;
        missing_attrs = [];
        validation_errors = [];
      } in
      let r = check_present insights_api_key cfg.api_key start in
      if not (is_empty cfg.workspace_id) || not (is_empty cfg.system_env)
      then check_uuid insights_system_env cfg.system_env
          (check_uuid insights_workspace_id cfg.workspace_id r)
      else check_present insights_project_id cfg.project_id r

  -- A container with its validation.
  abbrev pub Candidate : Type 0
  Candidate = Bytes × ContainerConfig × ValidationResult

  abbrev pub validated : Bytes × ContainerConfig → Candidate
  validated (uuid, cfg) = (uuid, cfg, validate_container_config cfg.required)

  -- The loop, with the best candidate so far; none has the count -1.
  pub best_from : Option Candidate → List (Bytes × ContainerConfig) → Option Candidate
  best_from best [] = best
  best_from none (c ∷ cs) = best_from (some (validated c)) cs
  best_from (some b) (c ∷ cs) =
      let v = validate_container_config c.1.required in
      best_from (if ltb b.2.valid_attr_count v.valid_attr_count then some (validated c) else some b)
        cs

  pub select_main_container : List (Bytes × ContainerConfig) → Option Candidate
  unfolding best_from
  select_main_container containers = best_from none containers
