-- ===== src/Controllers/ClusterSource.antt =====
-- controllers/clustersource/clustersource.go. Parameters are the parser of a kubeconfig, `cluster.New`,
-- and what else there is in a `rest.Config`.
use appuio_cloud_agent.Base.{String}
use appuio_cloud_agent.Kube.{wrapf, text, Result, ok, err, ◌>>=◌}

pub record RestConfig (O : Type 0) : Type 0 where
  pub host : String
  pub bearer_token : String
  pub others : O

pub record Clusters : Type 1 where
  pub Others : Type 0
  pub Cluster : Type 0
  pub no_others : Others
  pub rest_config_from_kube_config : String → Result (RestConfig Others)
  -- `cluster.New` with the scheme of the agent
  pub new : RestConfig Others → Result Cluster

abbrev wrapped {ℓ} : {A : Type ℓ} → String → Result A → Result A
wrapped message (ok a) = ok a
wrapped message (err e) = err (wrapf (text message) e)

module _ (cs : Clusters) where
  open cs use {Cluster, no_others, rest_config_from_kube_config, new}

  unfoldable pub from_kube_config : String → Result Cluster
  from_kube_config kubeconfig =
      wrapped "unable to create rest config from kubeconfig: "
        (rest_config_from_kube_config kubeconfig)
      >>= λ rc. wrapped "unable to setup cluster: " (new rc)

  unfoldable pub from_url_and_bearer_token : String → String → Result Cluster
  from_url_and_bearer_token url token =
      wrapped "unable to setup cluster: "
        (new (record { host = url; bearer_token = token; others = no_others }))
