-- ===== src/PodConfig/Inspect.antt =====
-- cmd/internal/kube/daemonset/kube_events_worker.go: inspectPodForEnvVars and
-- applyDiscoveryModeConfig, on the fields of PodArgs that they set. A function that fails may have
-- set some of them, so both are results.
mod Identity
mod Configured
mod Tests
use postman_insights_agent.Prelude.{
  Bool, true, false, not, ◌||◌, ◌&&◌, Option, none, some, List, [], ◌∷◌, if◌then◌else◌, ◌==◌,
  nat_eq,
}
use postman_insights_agent.Prelude.Dict.{lookup}
use postman_insights_agent.Prelude.Text.{bytes_eq}
use postman_insights_agent.Traffic.{Bytes}
use postman_insights_agent.PodFilter.{
  Pod, derive_service_name, derive_workload_name, derive_workload_type,
}
use postman_insights_agent.PodConfig.{
  EnvVar, ContainerConfig, RequiredConfig, empty_config, ConfigError, no_container_uuids,
  no_containers, invalid_configuration, all_required_absent, required_missing, invalid_project_id,
  mutually_exclusive, invalid_workspace_id, system_env_required, invalid_system_env, no_api_key,
  no_cluster_name, ConfigLibrary, ValidationResult, is_empty, config_map, select_main_container,
}

module _ (lib : ConfigLibrary) where
  -- The fields of Daemonset that are read; `drop_nginx_traffic` is the agent's own setting.
  pub record DaemonConfig : Type 0 where
    pub discovery_mode : Bool
    pub insights_environment : Bytes
    pub insights_api_key : Bytes
    pub cluster_name : Bytes
    pub insights_repro_mode_enabled : Bool
    pub insights_rate_limit : lib.Rate
    pub drop_nginx_traffic : Bool

  pub record PodSettings : Type 0 where
    pub insights_project_id : Option Bytes
    pub workspace_id : Bytes
    pub system_env : Bytes
    pub discovery_mode : Bool
    pub discovery_service_name : Bytes
    pub cluster_name : Bytes
    pub namespace : Bytes
    pub workload_name : Bytes
    pub workload_type : Bytes
    pub labels : List (Bytes × Bytes)
    pub container_uuid : Bytes
    pub insights_api_key : Bytes
    pub insights_environment : Bytes
    pub drop_nginx_traffic : Bool
    pub repro_mode : Bool
    pub agent_rate_limit : lib.Rate
    pub always_capture_payloads : List Bytes

  -- A PodArgs as it is made, before any of this.
  pub new_settings : PodSettings
  new_settings = record {
    insights_project_id = none;
    workspace_id = [];
    system_env = [];
    discovery_mode = false;
    discovery_service_name = [];
    cluster_name = [];
    namespace = [];
    workload_name = [];
    workload_type = [];
    labels = [];
    container_uuid = [];
    insights_api_key = [];
    insights_environment = [];
    drop_nginx_traffic = false;
    repro_mode = false;
    agent_rate_limit = lib.zero_rate;
    always_capture_payloads = [];
  }

  pub parse_bool_config : Bytes → Bool → Bool
  parse_bool_config value default =
      if is_empty value
      then default
      else elim (lib.parse_bool value) [ none ↦ default | some parsed ↦ parsed ]

  pub parse_slice_config : Bytes → List Bytes
  parse_slice_config value =
      if is_empty value
      then []
      else elim (lib.unmarshal_strings value) [ none ↦ [] | some parsed ↦ parsed ]

  -- The pod's limit, or the daemonset's, or the default where that is at most zero.
  pub rate_limit : lib.Rate → Bytes → lib.Rate
  rate_limit from_daemonset value =
      let configured : lib.Rate =
        if is_empty value
        then from_daemonset
        else elim (lib.parse_float value) [ none ↦ from_daemonset | some limit ↦ limit ] in
      if lib.at_most_zero configured then lib.default_rate_limit else configured

  pub with_payload_options : DaemonConfig → ContainerConfig → PodSettings → PodSettings
  unfolding parse_bool_config parse_slice_config rate_limit
  with_payload_options d config p = record p {
    repro_mode =
        not (parse_bool_config config.disable_repro_mode (not d.insights_repro_mode_enabled));
    agent_rate_limit = rate_limit d.insights_rate_limit config.agent_rate_limit;
    always_capture_payloads = parse_slice_config config.always_capture_payloads;
  }

  -- What both functions end with.
  pub apply_optional : DaemonConfig → ContainerConfig → PodSettings → PodSettings
  unfolding with_payload_options parse_bool_config
  apply_optional d config p =
      let dropping = record p {
        drop_nginx_traffic = parse_bool_config config.drop_nginx_traffic d.drop_nginx_traffic;
        repro_mode = d.insights_repro_mode_enabled;
      } in
      if d.insights_repro_mode_enabled then with_payload_options d config dropping else dropping

  pub with_creds : DaemonConfig → Bytes → PodSettings → PodSettings
  with_creds d key p = record p {
    insights_api_key = key;
    insights_environment = d.insights_environment;
  }

  -- The part of a pod with explicit identifiers that can fail: what it sets of them.
  pub explicit_ids : RequiredConfig → PodSettings → PodSettings × Option ConfigError
  explicit_ids req p =
      if not (is_empty req.workspace_id) && not (is_empty req.project_id)
      then (p, some mutually_exclusive)
      else if is_empty req.workspace_id
      then elim (lib.parse_service_id req.project_id) [
        | none ↦ (p, some invalid_project_id)
        | some id ↦ (record p { insights_project_id = some id }, none)
      ]
      else if not (lib.is_uuid req.workspace_id)
      then (p, some invalid_workspace_id)
      else if is_empty req.system_env
      then (p, some system_env_required)
      else if not (lib.is_uuid req.system_env)
      then (p, some invalid_system_env)
      else (record p { workspace_id = req.workspace_id; system_env = req.system_env }, none)

  pub apply_explicit :
      DaemonConfig → ContainerConfig → PodSettings → PodSettings × Option ConfigError
  unfolding explicit_ids with_creds apply_optional
  apply_explicit d config p =
      let (p', e) = explicit_ids config.required p in
      let key =
        if is_empty config.required.api_key then d.insights_api_key else config.required.api_key in
      elim e [
        | some err ↦ (p', some err)
        | none ↦
            if is_empty key
            then (p', some no_api_key)
            else (apply_optional d config (with_creds d key p'), none)
      ]

  pub discovered : DaemonConfig → Pod → ContainerConfig → PodSettings → PodSettings
  unfolding with_creds
  discovered d pod config p = record (with_creds d d.insights_api_key p) {
    discovery_mode = true;
    discovery_service_name =
        if is_empty config.service_name then derive_service_name pod else config.service_name;
    cluster_name = d.cluster_name;
    namespace = pod.namespace;
    workload_name = derive_workload_name pod;
    workload_type = derive_workload_type pod;
    labels = pod.labels;
  }

  pub apply_discovery_mode_config :
      DaemonConfig → Pod → ContainerConfig → PodSettings → PodSettings × Option ConfigError
  unfolding apply_explicit discovered apply_optional
  apply_discovery_mode_config d pod config p =
      if not (is_empty config.required.project_id) || not (is_empty config.required.workspace_id)
      then apply_explicit d config p
      else if is_empty d.cluster_name
      then (p, some no_cluster_name)
      else (apply_optional d config (discovered d pod config p), none)

  -- The last part of inspectPodForEnvVars, with the configuration that was selected.
  pub apply_selected :
      DaemonConfig → ContainerConfig → PodSettings → PodSettings × Option ConfigError
  unfolding with_creds apply_optional
  apply_selected d config p =
      let req = config.required in
      if is_empty req.workspace_id
      then elim (lib.parse_service_id req.project_id) [
        | none ↦ (p, some invalid_project_id)
        | some id ↦ (
          apply_optional d config
              (with_creds d req.api_key (record p { insights_project_id = some id })),
          none,
        )
      ]
      else (
        apply_optional d config (
            with_creds d req.api_key
              (record p { workspace_id = req.workspace_id; system_env = req.system_env })),
        none,
      )

  -- The errors of a validation, in the order of the tests.
  pub validation_error : ValidationResult → Option ConfigError
  validation_error r = elim r.validation_errors [
    | _ ∷ _ ↦ some (invalid_configuration r.validation_errors)
    | [] ↦ elim r.missing_attrs [
      | [] ↦ none
      | _ ∷ _ ↦
          if r.valid_attr_count == 0
          then some (all_required_absent r.missing_attrs)
          else some (required_missing r.missing_attrs)
    ]
  ]

  abbrev pub or_empty_config : Option ContainerConfig → ContainerConfig
  or_empty_config none = empty_config
  or_empty_config (some config) = config

  -- Both flows once the containers are known; `visit` is the order in which Go ranges over a map.
  pub inspect_containers :
      (List (Bytes × ContainerConfig) → List (Bytes × ContainerConfig))
      → DaemonConfig
      → Pod
      → Bytes
      → List (Bytes × ContainerConfig)
      → PodSettings
      → PodSettings × Option ConfigError
  unfolding validation_error apply_selected
  inspect_containers visit d pod first configs p =
      if d.discovery_mode
      then apply_discovery_mode_config d pod (or_empty_config (lookup first configs))
          (record p { container_uuid = first })
      else elim (select_main_container lib (visit configs)) [
        | none ↦ apply_selected d empty_config (record p { container_uuid = [] })
        | some (uuid, config, result) ↦
            let p' = record p { container_uuid = uuid } in
            elim (validation_error result) [
              | some err ↦ (p', some err)
              | none ↦ apply_selected d config p'
            ]
      ]

  -- `containers` is what GetContainerUUIDs returns, each with what GetEnvVars returns of it.
  pub inspect_pod_for_env_vars :
      (List (Bytes × ContainerConfig) → List (Bytes × ContainerConfig))
      → DaemonConfig
      → Pod
      → Option (List (Bytes × Option (EnvVar → Option Bytes)))
      → PodSettings
      → PodSettings × Option ConfigError
  unfolding inspect_containers
  inspect_pod_for_env_vars visit d pod none p = (p, some no_container_uuids)
  inspect_pod_for_env_vars visit d pod (some []) p = (p, some no_containers)
  inspect_pod_for_env_vars visit d pod (some (c ∷ cs)) p =
      inspect_containers visit d pod c.0 (config_map (c ∷ cs) []) p
