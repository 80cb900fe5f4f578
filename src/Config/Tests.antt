-- ===== src/Config/Tests.antt =====
-- The theorems on the configuration at a configuration with the deprecated field.
use appuio_cloud_agent.Base.{ℤ, pos, String, Bool, true, ◌≡◌, refl, ◌∷◌, [], none, some, Dict}
use appuio_cloud_agent.Kube.{Result, ok}
use appuio_cloud_agent.Ratio.Limits.{get_limit_for_node_selector}
use appuio_cloud_agent.Config.{Config, migrate_config, limits_of, meant, migrate_config-limit}

abbrev config : Config String ℤ (Unit {0}) (Unit {0})
config = record {
  organization_label = "appuio.io/organization";
  user_default_organization_annotation = "default-organization";
  quota_override_namespace = "appuio-cloud";
  memory_per_core_limit = some (pos 4);
  memory_per_core_limits = none;
  memory_per_core_warn_threshold = none;
  privileged_groups = [];
  privileged_users = [];
  privileged_cluster_roles = [];
  default_node_selector = [];
  default_namespace_node_selector_annotation = "";
  default_organization_cluster_roles = [];
  reserved_namespaces = [];
  allowed_annotations = [];
  allowed_labels = [];
  legacy_namespace_quota = pos 0;
  pod_run_once_active_deadline_seconds_override_annotation = "";
  pod_run_once_active_deadline_seconds_default = pos 0;
  legacy_resource_quota_annotation_base = "";
  legacy_default_resource_quotas = [];
  legacy_limit_range_name = "";
  legacy_default_limit_range = tt;
}

abbrev everything : String → Result (Dict String → Bool)
everything _ = ok (λ _. true)

migrate_config-limit_example :
    get_limit_for_node_selector everything
      (limits_of (migrate_config "" config).0)
      (("class", "plus") ∷ [])
    ≡ meant everything config (("class", "plus") ∷ [])
migrate_config-limit_example =
    migrate_config-limit everything "" config (("class", "plus") ∷ []) refl
