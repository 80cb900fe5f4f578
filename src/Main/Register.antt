-- ===== src/Main/Register.antt =====
-- main.go: the controllers that are set up, and the webhook that is registered with one of them.
use appuio_cloud_agent.Base.{String, not, List, [], ◌∷◌, ◌++◌, Dict}
use appuio_cloud_agent.Config.{Config, limits_of}
use appuio_cloud_agent.Ratio.Fetcher.{Fetcher, fetch_ratios}
use appuio_cloud_agent.Webhooks.RequestRatio
use appuio_cloud_agent.Webhooks.RequestRatio.{RatioValidator}
use appuio_cloud_agent.Main.Flags.{Flags}
use appuio_cloud_agent.Main.Environment.{
  Libraries, Manager, ratio, organization_rbac, zone_k8s_version, user_attribute_sync, group_sync,
  usage_profile_sync, usage_profile_apply, legacy_resource_quota, with_warnings, Environment,
}
use appuio_cloud_agent.Main.Program.{Step, register, set_up, when}

module _ {S X L : Type 0} (lib : Libraries S) (env : Environment S lib.decimal.D X L)
    (mgr : Manager lib.decimal.D) where
  open lib use {decimal, show, show_set, as_selector, parse}

  abbrev Conf : Type 0
  Conf = Config S decimal.D X L

  abbrev pub ratio_fetcher : String → Fetcher decimal.D
  ratio_fetcher label = record {
    client = mgr.client;
    list_pods = mgr.list_pods;
    organization_label = label;
  }

  abbrev pub ratio_validator : Conf → RatioValidator S decimal.D
  ratio_validator conf = record {
    pod_decoder = mgr.pod;
    deployment_decoder = mgr.deployment;
    stateful_set_decoder = mgr.stateful_set;
    client = mgr.client;
    ratio = fetch_ratios decimal show_set (ratio_fetcher "");
    ratio_limits = limits_of conf;
    ratio_warn_threshold = conf.memory_per_core_warn_threshold;
    default_node_selector = conf.default_node_selector;
    default_namespace_node_selector_annotation = conf.default_namespace_node_selector_annotation;
  }

  unfoldable pub register_ratio_controller : Conf → String → List (Step lib env mgr)
  register_ratio_controller conf org_label =
      register "/validate-request-ratio" (λ req. with_warnings (
        RequestRatio.handle decimal show show_set as_selector lib.convert_selector_to_labels_map
          parse (ratio_validator conf) req))
      ∷ set_up "ratio"
          (ratio (limits_of conf) (ratio_fetcher org_label) conf.memory_per_core_warn_threshold)
      ∷ []

  unfoldable pub register_organization_rbac_controller :
      String → Dict String → List (Step lib env mgr)
  register_organization_rbac_controller org_label default_cluster_roles =
      set_up "ratio" (organization_rbac org_label default_cluster_roles) ∷ []

  -- Once there is a clientset, for which `assemble` checks.
  unfoldable pub register_zone_k8s_version_controller : String → List (Step lib env mgr)
  register_zone_k8s_version_controller zone = set_up "zone-k8s-version" (zone_k8s_version zone) ∷ []

  -- The controllers that a flag turns on or off.
  unfoldable pub register_controllers : Flags → Conf → List (Step lib env mgr)
  register_controllers f conf =
      when lib env mgr (not f.disable_user_attribute_sync)
        (set_up "UserAttributeSync" user_attribute_sync ∷ [])
      ++ (when lib env mgr (not f.disable_group_sync)
            (set_up "GroupSync" (group_sync f.upstream_zone_identifier) ∷ [])
          ++ (when lib env mgr (not f.disable_usage_profiles) (
                set_up "ratio" usage_profile_sync
                ∷ set_up "ratio" (
                    usage_profile_apply conf.organization_label "resourcequota.appuio.io"
                      f.usage_profile)
                ∷ [])
              ++ when lib env mgr f.legacy_resource_quota_enabled (
                  set_up "legacy-resource-quota-controller" (
                    legacy_resource_quota conf.organization_label
                      conf.legacy_resource_quota_annotation_base conf.legacy_default_resource_quotas
                      conf.legacy_limit_range_name conf.legacy_default_limit_range)
                  ∷ [])))
