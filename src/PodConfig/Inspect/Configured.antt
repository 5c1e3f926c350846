-- ===== src/PodConfig/Inspect/Configured.antt =====
-- cmd/internal/kube/daemonset/kube_events_worker.go: what a pod whose inspection succeeds is set up
-- with.
use postman_insights_agent.Prelude.{
  subst, ltb, ◌≡◌, refl, ◌⊎◌, inl, inr, true, false, Option, none, some, List, [], ◌∷◌, arith,
  if◌then◌else◌, if_cases, option_cases, not, ◌||◌, ◌&&◌, nat_eq,
}
use postman_insights_agent.Prelude.Dict.{lookup}
use postman_insights_agent.Prelude.Text.{bytes_eq}
use postman_insights_agent.Traffic.{Bytes}
use postman_insights_agent.PodFilter.{Pod}
use postman_insights_agent.PodConfig.{
  EnvVar, ContainerConfig, RequiredConfig, ConfigError, ConfigLibrary, select_main_container,
  is_empty, empty_config, container_config, config_map, validate_container_config, Candidate,
  best_from, validated,
}
use postman_insights_agent.PodConfig.Inspect.{
  DaemonConfig, PodSettings, new_settings, apply_optional, apply_selected, apply_explicit,
  explicit_ids, discovered, with_creds, apply_discovery_mode_config, validation_error,
  inspect_containers, inspect_pod_for_env_vars, or_empty_config,
}
use postman_insights_agent.PodConfig.Inspect.Identity.{
  Complete, validate-Complete, Identified, Limited, Unset, apply_optional-Identified,
  apply_optional-Limited,
}

module _ (lib : ConfigLibrary) where
  -- Nothing of this has been set yet.
  abbrev Fresh : PodSettings lib → Type 0
  Fresh p =
      (p.insights_project_id ≡ none)
      × (p.workspace_id ≡ [])
      × (p.discovery_mode ≡ false)
      × Unset lib p

  -- If there is no error, then the pod is identified and limited.
  abbrev Configured : DaemonConfig lib → PodSettings lib × Option ConfigError → Type 0
  Configured d r = r.1 ≡ none → Identified lib d r.0 × Limited lib d r.0

  module _ (d : DaemonConfig lib) (set : lib.at_most_zero lib.default_rate_limit ≡ false) where
    optional-Configured :
        (config : ContainerConfig) (p : PodSettings lib)
        → Identified lib d p
        → Unset lib p
        → Configured d (apply_optional lib d config p, none)
    optional-Configured config p h u _ =
        (apply_optional-Identified lib d config p h, apply_optional-Limited lib d config p set u)

    apply_selected-Configured :
        (config : ContainerConfig) (p : PodSettings lib)
        → Complete lib config.required
        → Fresh p
        → Configured d (apply_selected lib d config p)
    unfolding apply_selected with_creds
    apply_selected-Configured config p (key, form) (project, workspace, undiscovered, u) =
        if_cases (Configured d) (is_empty config.required.workspace_id)
          (λ _.
            option_cases (Configured d) (lib.parse_service_id config.required.project_id)
              (λ _ e. absurd (cc))
              λ id _.
                optional-Configured config
                  (with_creds lib d config.required.api_key
                    (record p { insights_project_id = some id }))
                  (inr (inl (id, refl, workspace, undiscovered, key))) u)
          λ given.
            optional-Configured config
              (with_creds lib d config.required.api_key (record p {
                workspace_id = config.required.workspace_id;
                system_env = config.required.system_env;
              }))
              (elim form [
                | inl (_, ws, env) ↦ inl (ws, env, project, undiscovered, key)
                | inr missing ↦ absurd (ground (arith, given, missing))
              ])
              u

    abbrev Named : PodSettings lib × Option ConfigError → Type 0
    Named (p, e) =
        e ≡ none
        → (((lib.is_uuid p.workspace_id ≡ true)
              × (lib.is_uuid p.system_env ≡ true)
              × (p.insights_project_id ≡ none))
            ⊎ ((id : Bytes) × (p.insights_project_id ≡ some id) × (p.workspace_id ≡ [])))
          × (p.discovery_mode ≡ false)
          × Unset lib p

    explicit_ids-Named :
        (req : RequiredConfig) (p : PodSettings lib) → Fresh p → Named (explicit_ids lib req p)
    unfolding explicit_ids
    explicit_ids-Named req p (project, workspace, undiscovered, u) =
        if_cases Named (not (is_empty req.workspace_id) && not (is_empty req.project_id))
          (λ _ e. absurd (cc))
          λ _.
            if_cases Named (is_empty req.workspace_id)
              (λ _.
                option_cases Named (lib.parse_service_id req.project_id) (λ _ e. absurd (cc))
                  λ id _ _. (inr (id, refl, workspace), undiscovered, u))
              λ _.
                if_cases Named (not (lib.is_uuid req.workspace_id)) (λ _ e. absurd (cc))
                  λ ws.
                    if_cases Named (is_empty req.system_env) (λ _ e. absurd (cc))
                      λ _.
                        if_cases Named (not (lib.is_uuid req.system_env)) (λ _ e. absurd (cc))
                          λ env _. (
                            inl (ground (arith, ws), ground (arith, env), project),
                            undiscovered,
                            u,
                          )

    apply_explicit-Configured :
        (config : ContainerConfig) (p : PodSettings lib)
        → Fresh p
        → Configured d (apply_explicit lib d config p)
    unfolding apply_explicit with_creds
    apply_explicit-Configured config p fresh =
        let key =
          if is_empty config.required.api_key
          then d.insights_api_key
          else config.required.api_key in
        let p' = (explicit_ids lib config.required p).0 in
        option_cases (Configured d) (explicit_ids lib config.required p).1
          (λ ok.
            if_cases (Configured d) (is_empty key) (λ _ e. absurd (cc))
              λ given.
                (let (named, undiscovered, u) = explicit_ids-Named config.required p fresh ok in
                  optional-Configured config (with_creds lib d key p')
                    (elim named [
                      | inl (ws, env, project) ↦ inl (ws, env, project, undiscovered, given)
                      | inr (id, project, ws) ↦ inr (inl (id, project, ws, undiscovered, given))
                    ])
                    u))
          λ err _ e. absurd (cc)

    apply_discovery_mode_config-Configured :
        (pod : Pod) (config : ContainerConfig) (p : PodSettings lib)
        → d.discovery_mode ≡ true
        → Fresh p
        → Configured d (apply_discovery_mode_config lib d pod config p)
    unfolding apply_discovery_mode_config discovered with_creds
    apply_discovery_mode_config-Configured pod config p on (project, workspace, undiscovered, u) =
        if_cases (Configured d)
          (not (is_empty config.required.project_id) || not (is_empty config.required.workspace_id))
          (λ _. apply_explicit-Configured config p (project, workspace, undiscovered, u))
          λ _.
            if_cases (Configured d) (is_empty d.cluster_name) (λ _ e. absurd (cc))
              λ cluster.
                optional-Configured config (discovered lib d pod config p)
                  (inr (inr (on, refl, project, workspace, cluster, refl))) u

    nothing_selected-Configured :
        (p : PodSettings lib)
        → lib.parse_service_id [] ≡ none
        → Configured d (apply_selected lib d empty_config p)
    unfolding apply_selected with_creds container_config
    nothing_selected-Configured p invalid =
        option_cases (Configured d) (lib.parse_service_id []) (λ _ e. absurd (cc))
          λ id found. absurd (cc)

    abbrev Checked : Option (Candidate lib) → Type 0
    Checked none = Unit
    Checked (some (_, config, r)) = r ≡ validate_container_config lib config.required

    best_from-Checked :
        (best : Option (Candidate lib)) (containers : List (Bytes × ContainerConfig))
        → Checked best
        → Checked (best_from lib best containers)
    unfolding best_from
    best_from-Checked none [] h = h
    best_from-Checked (some b) [] h = h
    best_from-Checked none (c ∷ cs) h = best_from-Checked (some (validated lib c)) cs refl
    best_from-Checked (some b) (c ∷ cs) h =
        best_from-Checked
          (if ltb b.2.valid_attr_count (validate_container_config lib c.1.required).valid_attr_count
            then some (validated lib c)
            else some b)
          cs
          (if_cases Checked
            (ltb b.2.valid_attr_count (validate_container_config lib c.1.required).valid_attr_count)
            (λ _. refl) (λ _. h))

    inspect_containers-Configured :
        (visit : List (Bytes × ContainerConfig) → List (Bytes × ContainerConfig)) (pod : Pod)
        (first : Bytes) (configs : List (Bytes × ContainerConfig)) (p : PodSettings lib)
        → lib.parse_service_id [] ≡ none
        → Fresh p
        → Configured d (inspect_containers lib visit d pod first configs p)
    unfolding inspect_containers select_main_container
    inspect_containers-Configured visit pod first configs p invalid fresh =
        if_cases (Configured d) d.discovery_mode
          (λ on.
            apply_discovery_mode_config-Configured pod (or_empty_config lib (lookup first configs))
              (record p { container_uuid = first }) on fresh)
          λ _.
            option_cases (Configured d) (best_from lib none (visit configs))
              (λ _. nothing_selected-Configured (record p { container_uuid = [] }) invalid)
              λ (uuid, config, result) found.
                (let checked : Checked (some (uuid, config, result)) =
                    subst Checked found (best_from-Checked none (visit configs) tt) in
                  option_cases (Configured d) (validation_error lib result)
                    (λ ok.
                      apply_selected-Configured config (record p { container_uuid = uuid })
                        (validate-Complete lib config.required
                          (subst (λ r. validation_error lib r ≡ none) checked ok))
                        fresh)
                    λ err _ e. absurd (cc))

    inspect-Configured :
        (visit : List (Bytes × ContainerConfig) → List (Bytes × ContainerConfig)) (pod : Pod)
        (containers : Option (List (Bytes × Option (EnvVar → Option Bytes))))
        → lib.parse_service_id [] ≡ none
        → Configured d (inspect_pod_for_env_vars lib visit d pod containers (new_settings lib))
    unfolding inspect_pod_for_env_vars new_settings
    inspect-Configured visit pod none invalid = λ e. absurd (cc)
    inspect-Configured visit pod (some []) invalid = λ e. absurd (cc)
    inspect-Configured visit pod (some (c ∷ cs)) invalid =
        inspect_containers-Configured visit pod c.0 (config_map (c ∷ cs) []) (new_settings lib)
          invalid (refl, refl, refl, (refl, refl))

    -- If the default rate limit is not at most zero and no project has the empty identifier, then
    -- a new pod whose inspection succeeds has exactly one way to name its service: a valid
    -- workspace and system environment or a project, either with a key, or in discovery mode its
    -- cluster and the daemonset's key. With repro mode on its rate limit is not at most zero; with
    -- repro mode off it is left unset, and so are the paths whose payloads are always captured.
    pub inspect-Identified :
        (visit : List (Bytes × ContainerConfig) → List (Bytes × ContainerConfig)) (pod : Pod)
        (containers : Option (List (Bytes × Option (EnvVar → Option Bytes))))
        → lib.parse_service_id [] ≡ none
        → (inspect_pod_for_env_vars lib visit d pod containers (new_settings lib)).1 ≡ none
        → let p = (inspect_pod_for_env_vars lib visit d pod containers (new_settings lib)).0 in
          Identified lib d p × Limited lib d p
    inspect-Identified visit pod containers invalid ok =
        inspect-Configured visit pod containers invalid ok
