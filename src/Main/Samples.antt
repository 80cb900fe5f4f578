-- ===== src/Main/Samples.antt =====
-- A small cluster and flags, for the tests of `main`.
use appuio_cloud_agent.Base.{ℤ, pos, String, true, [], ◌∷◌, none}
use appuio_cloud_agent.Kube.{
  integers, first_only, list_set, external, ok, err, UserInfo, Unstructured,
}
use appuio_cloud_agent.Config.{Config}
use appuio_cloud_agent.Ratio.Record.{PodSpec}
use appuio_cloud_agent.Webhooks.Samples.{reader, always, bare, exact}
use appuio_cloud_agent.Webhooks.Organization.{openshift_project_requester_annotation}
use appuio_cloud_agent.Controllers.ClusterSource.{Clusters}
use appuio_cloud_agent.Main.Flags.{Flags, default_flags}
use appuio_cloud_agent.Main.Environment.{Libraries, Manager, Environment}
use appuio_cloud_agent.Main.Program.{Agent}
use appuio_cloud_agent.Main.Assembly.{agent_of}

abbrev pub lib : Libraries String
lib = record {
  sets = list_set;
  multierr = first_only;
  decimal = integers;
  match = exact;
  show = λ _. "ratio";
  show_set = λ _. "";
  as_selector = λ _. ok (λ _. true);
  convert_selector_to_labels_map = λ _. ([], none);
  parse = λ _ _. true;
}

-- A project that a service account requests.
abbrev pub project : Unstructured
project = record {
  kind = "Project";
  annotations = (openshift_project_requester_annotation, "system:serviceaccount:ci:deployer") ∷ [];
  labels = [];
  nested_string_map = (bare "Project").nested_string_map;
  nested_string = (bare "Project").nested_string;
}

abbrev pub pod_spec : PodSpec ℤ
pod_spec = record { containers = []; node_selector = [] }

abbrev pub mgr : Manager ℤ
mgr = record {
  client = reader;
  list_pods = λ _. ok [];
  unstructured = always project;
  service = always (record { annotations = [] });
  run_once_pod = always (record { restart_policy = "Always"; active_deadline_seconds = none });
  pod = always (record { phase = "Running"; spec = pod_spec });
  deployment = always (record { replicas = none; template = pod_spec });
  stateful_set = always (record { replicas = none; template = pod_spec });
}

abbrev pub config : String → Config String ℤ (Unit {0}) (Unit {0})
config label = record {
  organization_label = label;
  user_default_organization_annotation = "default-organization";
  quota_override_namespace = "appuio-cloud";
  memory_per_core_limit = none;
  memory_per_core_limits = none;
  memory_per_core_warn_threshold = none;
  privileged_groups = [];
  privileged_users = "admin" ∷ [];
  privileged_cluster_roles = [];
  default_node_selector = [];
  default_namespace_node_selector_annotation = "";
  default_organization_cluster_roles = [];
  reserved_namespaces = "default" ∷ [];
  allowed_annotations = [];
  allowed_labels = [];
  legacy_namespace_quota = pos 0;
  pod_run_once_active_deadline_seconds_override_annotation = "";
  pod_run_once_active_deadline_seconds_default = pos 0;
  legacy_resource_quota_annotation_base = "";
  legacy_default_resource_quotas = [];
  legacy_limit_range_name = "";
  legacy_default_limit_range = tt;
}

abbrev pub myself : UserInfo
myself = record { username = "system:serviceaccount:appuio:agent"; groups = [] }

abbrev pub clusters : Clusters
clusters = record {
  Others = Unit {0};
  Cluster = String;
  no_others = tt;
  rest_config_from_kube_config = λ _. err (external "no kubeconfig");
  new = λ rc. ok rc.host;
}

-- The content of the file is the organization label.
abbrev pub env : String → Environment String ℤ (Unit {0}) (Unit {0})
env content = record {
  clusters = clusters;
  read_file = λ _. ok content;
  unmarshal = λ label. ok (config label);
  no_selector = "";
  getenv = λ _. "token";
  get_config = none;
  new_manager = none;
  new_clientset = none;
  set_up = λ _. none;
  new_review_client = ok (ok myself);
  add_healthz_check = none;
  add_readyz_check = none;
}

abbrev pub labelled : Environment String ℤ (Unit {0}) (Unit {0})
labelled = env "appuio.io/organization"

abbrev pub flags : Flags
flags = record default_flags {
  control_api_url = "https://control";
  upstream_zone_identifier = "zone-1";
}

abbrev pub the_agent : Agent lib labelled mgr
the_agent = agent_of lib labelled mgr flags (config "appuio.io/organization") myself.username

-- Where namespaces are created, with the webhook for organizations.
abbrev pub namespaces : Manager ℤ
namespaces = record mgr { unstructured = always (bare "Namespace") }

abbrev pub enabled : Flags
enabled = record flags { namespace_project_organization_mutator_enabled = true }

abbrev pub enabled_agent : Agent lib labelled namespaces
enabled_agent =
    agent_of lib labelled namespaces enabled (config "appuio.io/organization") myself.username
