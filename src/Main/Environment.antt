-- ===== src/Main/Environment.antt =====
-- main.go: the libraries that its handlers use, the manager, and the calls that may fail.
use appuio_cloud_agent.Base.{String, Bool, List, Option, Dict}
use appuio_cloud_agent.Kube.{
  Error, Result, Decimal, StringSet, Multierr, Reader, Decoder, Unstructured, UserInfo, Request,
  Response,
}
use appuio_cloud_agent.Config.{Config}
use appuio_cloud_agent.Ratio.Record.{Pod, Workload}
use appuio_cloud_agent.Ratio.Limits.{Limit}
use appuio_cloud_agent.Ratio.Fetcher.{Fetcher}
use appuio_cloud_agent.Webhooks.ServiceLb.{Service}
use appuio_cloud_agent.Webhooks.RequestRatio
use appuio_cloud_agent.Webhooks.RunOnce
use appuio_cloud_agent.Controllers.ClusterSource.{Clusters}

-- `S` stands for label selectors.
pub record Libraries (S : Type 0) : Type 1 where
  pub sets : StringSet
  pub multierr : Multierr
  pub decimal : Decimal
  -- `wildcard.Match`
  pub match : String → String → Bool
  -- `Dec.String`, `labels.Set.String`, and three functions of `metav1` and `labels`
  pub show : Option decimal.D → String
  pub show_set : Dict String → String
  pub as_selector : S → Result (Dict String → Bool)
  pub convert_selector_to_labels_map : String → Dict String × Option Error
  pub parse : String → Dict String → Bool

-- What the manager's client and the decoders read.
pub record Manager (D : Type 0) : Type 0 where
  pub client : Reader
  pub list_pods : String → Result (List (Pod D))
  pub unstructured : Decoder Unstructured
  pub service : Decoder Service
  pub run_once_pod : Decoder RunOnce.Pod
  pub pod : Decoder (Pod D)
  pub deployment : Decoder (Workload D)
  pub stateful_set : Decoder (Workload D)

-- The controllers, by the fields that `main` sets apart from the manager's and the foreign client.
-- `X` and `L` are the specifications of a quota and of a limit range.
pub data Controller (S : Type 0) (D : Type 0) (X : Type 0) (L : Type 0) : Type 0 where
  ratio : List (Limit S D) → Fetcher D → Option D → Controller S D X L
  organization_rbac : String → Dict String → Controller S D X L
  zone_k8s_version : String → Controller S D X L
  user_attribute_sync : Controller S D X L
  group_sync : String → Controller S D X L
  usage_profile_sync : Controller S D X L
  -- the organization label, the label base of the transformer, and the selected profile
  usage_profile_apply : String → String → String → Controller S D X L
  legacy_resource_quota : String → String → Dict X → String → L → Controller S D X L

-- The answer of a handler: the request ratio webhook's has fields of its own.
pub data Answer : Type 0 where
  plain : Response → Answer
  with_warnings : RequestRatio.Response → Answer

abbrev pub Handler : Type 0
Handler = Request → Answer

pub record Environment (S : Type 0) (D : Type 0) (X : Type 0) (L : Type 0) : Type 1 where
  pub clusters : Clusters
  pub read_file : String → Result String
  pub unmarshal : String → Result (Config S D X L)
  -- the empty label selector
  pub no_selector : S
  pub getenv : String → String
  -- `ctrl.GetConfigOrDie` and `ctrl.NewManager`
  pub get_config : Option Error
  pub new_manager : Option Error
  pub new_clientset : Option Error
  -- `SetupWithManager`
  pub set_up : Controller S D X L → Option Error
  pub new_review_client : Result (Result UserInfo)
  pub add_healthz_check : Option Error
  pub add_readyz_check : Option Error
