-- ===== src/PodConfig/Inspect/Identity.antt =====
-- cmd/internal/kube/daemonset/kube_events_worker.go: how a pod names its service, and its rate
-- limit.
use postman_insights_agent.Prelude.{
  ◌≡◌, ◌⊎◌, inl, inr, true, false, none, some, [], arith, if_cases, Bool-cases, nat_eq,
}
use postman_insights_agent.Prelude.Text.{bytes_eq}
use postman_insights_agent.Traffic.{Bytes}
use postman_insights_agent.PodConfig.{
  ContainerConfig, RequiredConfig, ConfigLibrary, is_empty, validate_container_config, check_uuid,
  check_present,
}
use postman_insights_agent.PodConfig.Inspect.{
  DaemonConfig, PodSettings, rate_limit, apply_optional, with_payload_options, validation_error,
}

module _ (lib : ConfigLibrary) where
  -- A required configuration that a selected container may have: a key, and either a workspace with
  -- a system environment or a project.
  abbrev pub Complete : RequiredConfig → Type 0
  Complete cfg =
      (is_empty cfg.api_key ≡ false)
      × (((is_empty cfg.workspace_id ≡ false)
            × (lib.is_uuid cfg.workspace_id ≡ true)
            × (lib.is_uuid cfg.system_env ≡ true))
          ⊎ (is_empty cfg.workspace_id ≡ true))

  pub validate-Complete :
      (cfg : RequiredConfig)
      → validation_error lib (validate_container_config lib cfg) ≡ none
      → Complete cfg
  unfolding validation_error validate_container_config check_uuid check_present
  validate-Complete cfg e = (
    ground (arith, e),
    elim (Bool-cases (is_empty cfg.workspace_id)) [
      | inl missing ↦ inr missing
      | inr given ↦ inl (given, ground (arith, e, given), ground (arith, e, given))
    ],
  )

  -- The three ways to name the service of a pod, of which it has one: a workspace and a system
  -- environment, a project, or its discovery.
  abbrev pub Identified : DaemonConfig lib → PodSettings lib → Type 0
  Identified d p =
      ((lib.is_uuid p.workspace_id ≡ true)
        × (lib.is_uuid p.system_env ≡ true)
        × (p.insights_project_id ≡ none)
        × (p.discovery_mode ≡ false)
        × (is_empty p.insights_api_key ≡ false))
      ⊎ (((id : Bytes) × (p.insights_project_id ≡ some id)
            × (p.workspace_id ≡ [])
            × (p.discovery_mode ≡ false)
            × (is_empty p.insights_api_key ≡ false))
          ⊎ ((d.discovery_mode ≡ true)
              × (p.discovery_mode ≡ true)
              × (p.insights_project_id ≡ none)
              × (p.workspace_id ≡ [])
              × (is_empty p.cluster_name ≡ false)
              × (p.insights_api_key ≡ d.insights_api_key)))

  -- With repro mode on, the limit is not at most zero; with repro mode off, it is left unset.
  abbrev pub Limited : DaemonConfig lib → PodSettings lib → Type 0
  Limited d p =
      ((d.insights_repro_mode_enabled ≡ true) × (lib.at_most_zero p.agent_rate_limit ≡ false))
      ⊎ ((d.insights_repro_mode_enabled ≡ false)
          × (p.agent_rate_limit ≡ lib.zero_rate)
          × (p.always_capture_payloads ≡ []))

  rate_limit-at_most_zero :
      (from_daemonset : lib.Rate) (value : Bytes)
      → lib.at_most_zero lib.default_rate_limit ≡ false
      → lib.at_most_zero (rate_limit lib from_daemonset value) ≡ false
  unfolding rate_limit
  rate_limit-at_most_zero r v h = ground (arith, h)

  abbrev pub Unset : PodSettings lib → Type 0
  Unset p = (p.agent_rate_limit ≡ lib.zero_rate) × (p.always_capture_payloads ≡ [])

  pub apply_optional-Identified :
      (d : DaemonConfig lib) (config : ContainerConfig) (p : PodSettings lib)
      → Identified d p
      → Identified d (apply_optional lib d config p)
  unfolding apply_optional with_payload_options
  apply_optional-Identified d config p h =
      if_cases (Identified d) d.insights_repro_mode_enabled (λ _. h) (λ _. h)

  pub apply_optional-Limited :
      (d : DaemonConfig lib) (config : ContainerConfig) (p : PodSettings lib)
      → lib.at_most_zero lib.default_rate_limit ≡ false
      → Unset p
      → Limited d (apply_optional lib d config p)
  unfolding apply_optional with_payload_options
  apply_optional-Limited d config p h u =
      if_cases (Limited d) d.insights_repro_mode_enabled
        (λ on. inl (on, rate_limit-at_most_zero d.insights_rate_limit config.agent_rate_limit h))
        (λ off. inr (off, u.0, u.1))
