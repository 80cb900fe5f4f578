-- ===== src/Kube/Reads.antt =====
-- Reads of the cluster, as a client answers them while one request is handled.
use appuio_cloud_agent.Base.{String, List}
use appuio_cloud_agent.Kube.Errors.{Result}
use appuio_cloud_agent.Kube.Objects.{
  Namespace, User, Group, ClusterRoleBinding, ConfigMap, ZoneUsageProfile,
}

pub record Reader : Type 0 where
  pub get_namespace : String → Result Namespace
  pub get_user : String → Result User
  pub get_group : String → Result Group
  -- the name and the namespace
  pub get_config_map : String → String → Result ConfigMap
  pub get_zone_usage_profile : String → Result ZoneUsageProfile
  -- the namespaces that carry the label with the value
  pub list_namespaces : String → String → Result (List Namespace)
  pub list_cluster_role_bindings : Result (List ClusterRoleBinding)
