-- ===== src/Main/Admission.antt =====
-- main.go: the webhooks that are registered, and the skipper for privileged users.
use appuio_cloud_agent.Base.{
  String, Bool, false, not, ◌&&◌, List, [], ◌∷◌, ◌++◌, Option, none, some, Dict, keys,
}
use appuio_cloud_agent.Kube.{Error, Result, ok, err}
use appuio_cloud_agent.Config.{Config}
use appuio_cloud_agent.Skipper.Skip.{Skipper, static_skip, multi_skip}
use appuio_cloud_agent.Skipper.Privileged.{PrivilegedUserSkipper, privileged_skip}
use appuio_cloud_agent.Webhooks.NodeSelector
use appuio_cloud_agent.Webhooks.NodeSelector.{PodNodeSelectorMutator}
use appuio_cloud_agent.Webhooks.Quota
use appuio_cloud_agent.Webhooks.Quota.{NamespaceQuotaValidator}
use appuio_cloud_agent.Webhooks.ServiceLb
use appuio_cloud_agent.Webhooks.ServiceLb.{ServiceCloudscaleLbValidator}
use appuio_cloud_agent.Webhooks.Reserved
use appuio_cloud_agent.Webhooks.Reserved.{ReservedResourceQuotaLimitRangeValidator}
use appuio_cloud_agent.Webhooks.Organization
use appuio_cloud_agent.Webhooks.Organization.{NamespaceProjectOrganizationMutator}
use appuio_cloud_agent.Webhooks.Metadata
use appuio_cloud_agent.Webhooks.Metadata.{NamespaceMetadataValidator}
use appuio_cloud_agent.Webhooks.RunOnce
use appuio_cloud_agent.Webhooks.RunOnce.{PodRunOnceActiveDeadlineSecondsMutator}
use appuio_cloud_agent.Main.Flags.{Flags}
use appuio_cloud_agent.Main.Environment.{Libraries, Manager, plain, Environment}
use appuio_cloud_agent.Main.Program.{Step, register}

module _ {S X L : Type 0} (lib : Libraries S) (env : Environment S lib.decimal.D X L)
    (mgr : Manager lib.decimal.D) where
  open lib use {sets, multierr, decimal, match}

  abbrev Conf : Type 0
  Conf = Config S decimal.D X L

  abbrev pub result_of : Dict String × Option Error → Result (Dict String)
  result_of (d, none) = ok d
  result_of (d, some e) = err e

  abbrev pub privileged_user_skipper : Conf → String → PrivilegedUserSkipper
  privileged_user_skipper conf self = record {
    client = mgr.client;
    privileged_users = conf.privileged_users ++ (self ∷ []);
    privileged_groups = conf.privileged_groups;
    privileged_cluster_roles = conf.privileged_cluster_roles;
  }

  abbrev pub psk : Conf → String → Skipper
  psk conf self = privileged_skip match (privileged_user_skipper conf self)

  -- `NewMultiSkipper` of a static skipper and the one for privileged users.
  abbrev pub enabled_or_psk : Bool → Conf → String → Skipper
  enabled_or_psk enabled conf self = multi_skip (static_skip (not enabled) ∷ psk conf self ∷ [])

  unfoldable pub register_node_selector_validation_webhooks : Conf → List (Step lib env mgr)
  register_node_selector_validation_webhooks conf =
      register "/mutate-pod-node-selector" (λ req. plain (
        NodeSelector.handle (λ s. result_of (lib.convert_selector_to_labels_map s))
          (record {
            decoder = mgr.unstructured;
            client = mgr.client;
            default_node_selector = conf.default_node_selector;
            default_namespace_node_selector_annotation =
                conf.default_namespace_node_selector_annotation;
            skipper = static_skip false;
          })
          req))
      ∷ []

  abbrev pub namespace_quota_validator : Flags → Conf → String → NamespaceQuotaValidator
  namespace_quota_validator f conf self = record {
    decoder = mgr.unstructured;
    client = mgr.client;
    skipper = psk conf self;
    skip_validate_quota = f.disable_usage_profiles && not f.legacy_namespace_quota_enabled;
    organization_label = conf.organization_label;
    user_default_organization_annotation = conf.user_default_organization_annotation;
    selected_profile = f.usage_profile;
    quota_override_namespace = conf.quota_override_namespace;
    enable_legacy_namespace_quota = f.legacy_namespace_quota_enabled;
    legacy_namespace_quota = conf.legacy_namespace_quota;
  }

  abbrev pub service_cloudscale_lb_validator : Flags → Conf → String → ServiceCloudscaleLbValidator
  service_cloudscale_lb_validator f conf self = record {
    decoder = mgr.service;
    skipper = enabled_or_psk f.cloudscale_loadbalancer_validation_enabled conf self;
  }

  abbrev pub reserved_validator : Flags → Conf → String → ReservedResourceQuotaLimitRangeValidator
  reserved_validator f conf self = record {
    skipper = enabled_or_psk f.legacy_resource_quota_enabled conf self;
    reserved_resource_quota_names = keys conf.legacy_default_resource_quotas;
    reserved_limit_range_names = conf.legacy_limit_range_name ∷ [];
  }

  abbrev pub organization_mutator : Flags → Conf → String → NamespaceProjectOrganizationMutator
  organization_mutator f conf self = record {
    decoder = mgr.unstructured;
    client = mgr.client;
    skipper = enabled_or_psk f.namespace_project_organization_mutator_enabled conf self;
    organization_label = conf.organization_label;
    user_default_organization_annotation = conf.user_default_organization_annotation;
  }

  abbrev pub metadata_validator : Flags → Conf → String → NamespaceMetadataValidator
  metadata_validator f conf self = record {
    decoder = mgr.unstructured;
    skipper = enabled_or_psk f.namespace_metadata_validator_enabled conf self;
    reserved_namespaces = conf.reserved_namespaces;
    allowed_annotations = conf.allowed_annotations;
    allowed_labels = conf.allowed_labels;
  }

  abbrev pub run_once_mutator : Flags → Conf → PodRunOnceActiveDeadlineSecondsMutator
  run_once_mutator f conf = record {
    decoder = mgr.run_once_pod;
    client = mgr.client;
    override_annotation = conf.pod_run_once_active_deadline_seconds_override_annotation;
    default_active_deadline_seconds = conf.pod_run_once_active_deadline_seconds_default;
    skipper = static_skip (not f.pod_run_once_active_deadline_seconds_mutator_enabled);
  }

  unfoldable pub register_webhooks : Flags → Conf → String → List (Step lib env mgr)
  register_webhooks f conf self =
      register "/validate-namespace-quota"
        (λ req. plain (Quota.handle (namespace_quota_validator f conf self) req))
      ∷ register "/validate-service-cloudscale-lb"
          (λ req. plain (ServiceLb.handle (service_cloudscale_lb_validator f conf self) req))
      ∷ register "/validate-reserved-resourcequota-limitrange"
          (λ req. plain (Reserved.handle (reserved_validator f conf self) req))
      ∷ register "/mutate-namespace-project-organization"
          (λ req. plain (Organization.handle (organization_mutator f conf self) req))
      ∷ register "/validate-namespace-metadata"
          (λ req. plain (Metadata.handle sets match multierr (metadata_validator f conf self) req))
      ∷ register "/mutate-pod-run-once-active-deadline"
          (λ req. plain (RunOnce.handle (run_once_mutator f conf) req))
      ∷ []
