-- ===== src/Config.antt =====
-- config.go: the configuration, and what is done to it. Reading the file and decoding it are parameters.
mod Tests
use appuio_cloud_agent.Base.{
  ℤ, String, Bool, true, false, ◌≡◌, ◌≢◌, refl, ◌↔◌, List, [], ◌∷◌, ◌++◌, Option, none, some, Dict,
  ◌==◌, eq_iff, if◌then◌else◌, arith, Option-cases, Bool-cases, inl, inr,
}
use appuio_cloud_agent.Kube.{Error, errorf, text, Result, ok, ◌>>=◌, Multierr}
use appuio_cloud_agent.Ratio.Limits.{Limit, get_limit_for_node_selector}

-- `X` stands for the specification of a resource quota, `L` for that of a limit range, `S` for a label
-- selector and `D` for quantities and decimals. A nil list of limits is `none`.
pub record Config (S : Type 0) (D : Type 0) (X : Type 0) (L : Type 0) : Type 0 where
  pub organization_label : String
  pub user_default_organization_annotation : String
  pub quota_override_namespace : String
  pub memory_per_core_limit : Option D
  pub memory_per_core_limits : Option (List (Limit S D))
  pub memory_per_core_warn_threshold : Option D
  pub privileged_groups : List String
  pub privileged_users : List String
  pub privileged_cluster_roles : List String
  pub default_node_selector : Dict String
  pub default_namespace_node_selector_annotation : String
  pub default_organization_cluster_roles : Dict String
  pub reserved_namespaces : List String
  pub allowed_annotations : List String
  pub allowed_labels : List String
  pub legacy_namespace_quota : ℤ
  pub pod_run_once_active_deadline_seconds_override_annotation : String
  pub pod_run_once_active_deadline_seconds_default : ℤ
  pub legacy_resource_quota_annotation_base : String
  pub legacy_default_resource_quotas : Dict X
  pub legacy_limit_range_name : String
  pub legacy_default_limit_range : L

abbrev pub deprecated : String
deprecated =
    "MemoryPerCoreLimit is deprecated and will be removed in a future version. Use MemoryPerCoreLimits: {Limit: \"XGi\"} instead."

module _ {S D X L : Type 0} where
  -- `empty` is the zero value of a label selector.
  unfoldable pub migrate_config : S → Config S D X L → Config S D X L × List String
  migrate_config empty c = elim c.memory_per_core_limit [
    | none ↦ (c, [])
    | some l ↦ elim c.memory_per_core_limits [
      | some ls ↦ (c, [])
      | none ↦ (
        record c {
          memory_per_core_limits = some (record { node_selector = empty; limit = some l } ∷ []);
        },
        deprecated ∷ [],
      )
    ]
  ]

  -- Reading a file, decoding it, and the migration.
  unfoldable pub config_from_file :
      (String → Result String)
      → (String → Result (Config S D X L))
      → S
      → String
      → Result (Config S D X L × List String)
  config_from_file read_file unmarshal empty path =
      read_file path >>= λ raw. unmarshal raw >>= λ c. ok (migrate_config empty c)

  unfoldable pub validate : Multierr → Config S D X L → Option Error
  validate multierr c = multierr.combine (
      if c.organization_label == ""
      then errorf (text "OrganizationLabel must not be empty") ∷ []
      else [])

  -- `Limits` that is nil has no limit.
  abbrev pub limits_of : Config S D X L → List (Limit S D)
  limits_of c = elim c.memory_per_core_limits [ none ↦ [] | some ls ↦ ls ]

  -- The limit for a node selector that the configuration means: the list's, if there is a list, and
  -- otherwise the single limit for every node selector.
  abbrev pub meant : (S → Result (Dict String → Bool)) → Config S D X L → Dict String → Option D
  meant as_selector c node_selector = elim c.memory_per_core_limits [
    | some ls ↦ get_limit_for_node_selector as_selector ls node_selector
    | none ↦ c.memory_per_core_limit
  ]

  -- With the migrated list of limits alone, each node selector gets the limit that the configuration
  -- means, when the empty selector is valid and matches everything.
  pub migrate_config-limit :
      (as_selector : S → Result (Dict String → Bool)) (empty : S) (c : Config S D X L)
      (node_selector : Dict String)
      → as_selector empty ≡ ok (λ _. true)
      → get_limit_for_node_selector as_selector (limits_of (migrate_config empty c).0) node_selector
        ≡ meant as_selector c node_selector
  unfolding migrate_config get_limit_for_node_selector
  migrate_config-limit as_selector empty c node_selector all =
      elim (Option-cases c.memory_per_core_limit) [
        | inl unset ↦ elim (Option-cases c.memory_per_core_limits) [
          | inl nil ↦ rw (unset, nil) refl
          | inr (ls, given) ↦ rw (unset, given) refl
        ]
        | inr (l, old) ↦ elim (Option-cases c.memory_per_core_limits) [
          | inl nil ↦ rw (old, nil, all) refl
          | inr (ls, given) ↦ rw (old, given) refl
        ]
      ]
