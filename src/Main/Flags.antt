-- ===== src/Main/Flags.antt =====
-- main.go: the flags of the program, once they are parsed, and their defaults.
use appuio_cloud_agent.Base.{ℤ, pos, String, Bool, false}

pub record Flags : Type 0 where
  pub metrics_bind_address : String
  pub leader_elect : Bool
  pub health_probe_bind_address : String
  pub webhook_cert_dir : String
  pub webhook_port : ℤ
  pub config_file : String
  pub kubeconfig_control_api : String
  pub control_api_url : String
  pub upstream_zone_identifier : String
  pub usage_profile : String
  pub cloudscale_loadbalancer_validation_enabled : Bool
  pub namespace_project_organization_mutator_enabled : Bool
  pub namespace_metadata_validator_enabled : Bool
  pub legacy_namespace_quota_enabled : Bool
  pub legacy_resource_quota_enabled : Bool
  pub pod_run_once_active_deadline_seconds_mutator_enabled : Bool
  pub qps : ℤ
  pub burst : ℤ
  pub disable_user_attribute_sync : Bool
  pub disable_group_sync : Bool
  pub disable_usage_profiles : Bool

-- What holds of a flag that is not given.
abbrev pub default_flags : Flags
default_flags = record {
  metrics_bind_address = ":8080";
  leader_elect = false;
  health_probe_bind_address = ":8082";
  webhook_cert_dir = "";
  webhook_port = pos 9443;
  config_file = "./config.yaml";
  kubeconfig_control_api = "kubeconfig-control-api";
  control_api_url = "";
  upstream_zone_identifier = "";
  usage_profile = "";
  cloudscale_loadbalancer_validation_enabled = false;
  namespace_project_organization_mutator_enabled = false;
  namespace_metadata_validator_enabled = false;
  legacy_namespace_quota_enabled = false;
  legacy_resource_quota_enabled = false;
  pod_run_once_active_deadline_seconds_mutator_enabled = false;
  qps = pos 20;
  burst = pos 100;
  disable_user_attribute_sync = false;
  disable_group_sync = false;
  disable_usage_profiles = false;
}
