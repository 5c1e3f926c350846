-- ===== src/PodConfig/Selection.antt =====
-- cmd/internal/kube/daemonset/kube_events_worker.go: which container's configuration is used.
use postman_insights_agent.Prelude.{
  ℕ, ◌≤◌, ◌<◌, ◌≡◌, refl, ap, ◌⊎◌, inl, inr, some, List, [], ◌∷◌, ◌++◌, arith, All, ltb, ltb→lt,
  Bool-cases,
}
use postman_insights_agent.Traffic.{Bytes}
use postman_insights_agent.PodConfig.{
  ContainerConfig, ConfigLibrary, validate_container_config, Candidate, validated, best_from,
  select_main_container,
}

module _ (lib : ConfigLibrary) where
  abbrev pub count : Bytes × ContainerConfig → ℕ
  count (_, config) = (validate_container_config lib config.required).valid_attr_count

  -- The first of the containers with the most valid attributes.
  abbrev pub IsFirstBest : List (Bytes × ContainerConfig) → Candidate lib → Type 0
  IsFirstBest containers best =
      (before : List (Bytes × ContainerConfig)) × (entry : Bytes × ContainerConfig) × (after : List
        (Bytes × ContainerConfig))
      × (containers ≡ before ++ entry ∷ after)
      × (best ≡ validated lib entry)
      × All (λ c. count c < count entry) before
      × All (λ c. count c ≤ count entry) after

  abbrev Beaten : Candidate lib → List (Bytes × ContainerConfig) → Candidate lib → Type 0
  Beaten b containers r =
      ((r ≡ b) × All (λ c. count c ≤ b.2.valid_attr_count) containers)
      ⊎ (IsFirstBest containers r × (b.2.valid_attr_count < r.2.valid_attr_count))

  best_from-Beaten :
      (b : Candidate lib) (containers : List (Bytes × ContainerConfig))
      → (r : Candidate lib) × (best_from lib (some b) containers ≡ some r) × Beaten b containers r
  unfolding best_from
  best_from-Beaten b [] = (b, refl, inl (refl, tt))
  best_from-Beaten b (c ∷ cs) = elim (Bool-cases (ltb b.2.valid_attr_count (count c))) [
    | inl more ↦
        let (r, e, beaten) = best_from-Beaten (validated lib c) cs in
        let lt : b.2.valid_attr_count < count c = ltb→lt _ _ more in
        (
          r,
          ground (arith, more, e),
          inr (elim beaten [
            | inl (same, rest) ↦ (
              ([], c, cs, refl, same, tt, rest),
              omega (arith, lt, ap (λ x. x.2.valid_attr_count) same),
            )
            | inr ((before, entry, after, split, is, less, rest), over) ↦ (
              (
                c ∷ before,
                entry,
                after,
                ap (◌∷◌ c) split,
                is,
                (omega (arith, over, ap (λ x. x.2.valid_attr_count) is), less),
                rest,
              ),
              omega (arith, lt, over),
            )
          ]),
        )
    | inr no_more ↦
        let (r, e, beaten) = best_from-Beaten b cs in
        let le : count c ≤ b.2.valid_attr_count = ground (arith, no_more) in
        (
          r,
          ground (arith, no_more, e),
          elim beaten [
            | inl (same, rest) ↦ inl (same, (le, rest))
            | inr ((before, entry, after, split, is, less, rest), over) ↦ inr (
              (
                c ∷ before,
                entry,
                after,
                ap (◌∷◌ c) split,
                is,
                (omega (arith, le, over, ap (λ x. x.2.valid_attr_count) is), less),
                rest,
              ),
              over,
            )
          ],
        )
  ]

  -- Of the containers of a pod, if there are any, the selected one is the first, in the order in
  -- which the map is visited, with the most valid attributes.
  pub select_main_container-IsFirstBest :
      (c : Bytes × ContainerConfig) (cs : List (Bytes × ContainerConfig))
      → (best : Candidate lib) × (select_main_container lib (c ∷ cs) ≡ some best)
        × IsFirstBest (c ∷ cs) best
  unfolding select_main_container best_from
  select_main_container-IsFirstBest c cs =
      let (r, e, beaten) = best_from-Beaten (validated lib c) cs in
      (
        r,
        e,
        elim beaten [
          | inl (same, rest) ↦ ([], c, cs, refl, same, tt, rest)
          | inr ((before, entry, after, split, is, less, rest), over) ↦ (
            c ∷ before,
            entry,
            after,
            ap (◌∷◌ c) split,
            is,
            (omega (arith, over, ap (λ x. x.2.valid_attr_count) is), less),
            rest,
          )
        ],
      )
