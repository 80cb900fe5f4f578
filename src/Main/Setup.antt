-- ===== src/Main/Setup.antt =====
-- main.go: `main` up to the start of the managers.
use appuio_cloud_agent.Base.{String, not, none, ◌==◌, if◌then◌else◌}
use appuio_cloud_agent.Kube.{UserInfo}
use appuio_cloud_agent.Config.{Config, config_from_file, validate}
use appuio_cloud_agent.Whoami
use appuio_cloud_agent.Whoami.{whoami_for_config_and_client}
use appuio_cloud_agent.Controllers.ClusterSource.{from_kube_config, from_url_and_bearer_token}
use appuio_cloud_agent.Main.Flags.{Flags}
use appuio_cloud_agent.Main.Environment.{Libraries, Manager, Environment}
use appuio_cloud_agent.Main.Run.{Run, running, exited, ◌>>=◌, ◌>>◌, or_exit, check}
use appuio_cloud_agent.Main.Program.{Agent, new_agent, run}
use appuio_cloud_agent.Main.Register.{
  register_ratio_controller, register_organization_rbac_controller,
  register_zone_k8s_version_controller, register_controllers,
}
use appuio_cloud_agent.Main.Admission.{
  register_node_selector_validation_webhooks, register_webhooks,
}

module _ {S X L : Type 0} (lib : Libraries S) (env : Environment S lib.decimal.D X L)
    (mgr : Manager lib.decimal.D) where
  open lib use {multierr, decimal}

  abbrev Conf : Type 0
  Conf = Config S decimal.D X L

  unfoldable pub control_api_cluster : Flags → Run env.clusters.Cluster
  control_api_cluster f =
      let token = env.getenv "CONTROL_API_BEARER_TOKEN" in
      if not (f.control_api_url == "")
      then (if token == ""
          then exited "CONTROL_API_BEARER_TOKEN env var not set" "" none
          else or_exit "unable to setup control-api manager"
              (from_url_and_bearer_token env.clusters f.control_api_url token))
      else (or_exit "unable to read control API kubeconfig" (env.read_file f.kubeconfig_control_api)
          >>= λ cac.
              or_exit "unable to setup control-api manager" (from_kube_config env.clusters cac))

  abbrev pub zone_given : String → Run (Unit {0})
  zone_given zone =
      if zone == "" then exited "upstream-zone-identifier must be set." "" none else running tt

  -- `whoami`
  unfoldable pub current_user : Run UserInfo
  current_user =
      or_exit "unable to create whoami client" (whoami_for_config_and_client env.new_review_client)
      >>= λ wc. or_exit "unable to get current user" (Whoami.whoami wc)

  -- What is registered and set up for a configuration.
  unfoldable pub assemble : Flags → Conf → Run (Agent lib env mgr)
  assemble f conf =
      run lib env mgr (register_ratio_controller lib env mgr conf conf.organization_label)
        (new_agent lib env mgr)
      >>= λ a.
          run lib env mgr
            (register_organization_rbac_controller lib env mgr conf.organization_label
              conf.default_organization_cluster_roles)
            a
          >>= λ b.
              check "unable to create clientset for config" "zone-k8s-version" env.new_clientset
              >> run lib env mgr
                  (register_zone_k8s_version_controller lib env mgr f.upstream_zone_identifier) b
              >>= λ c. run lib env mgr (register_controllers lib env mgr f conf) c >>= λ d.
                  current_user >>= λ user.
                  run lib env mgr (register_node_selector_validation_webhooks lib env mgr conf) d
                  >>= λ e. run lib env mgr (register_webhooks lib env mgr f conf user.username) e

  -- Until the managers are started. `ctrl.GetConfigOrDie` logs and exits by itself.
  unfoldable pub main : Flags → Run (Agent lib env mgr)
  main f =
      or_exit "unable to read config file"
        (config_from_file env.read_file env.unmarshal env.no_selector f.config_file)
      >>= λ (conf, warnings).
          check "invalid configuration" "" (validate multierr conf)
          >> control_api_cluster f
          >>= λ cluster.
              check "unable to get kubeconfig" "" env.get_config
              >> check "unable to setup manager" "" env.new_manager
              >> zone_given f.upstream_zone_identifier
              >> assemble f conf
              >>= λ agent.
                  check "unable to setup health endpoint" "" env.add_healthz_check
                  >> check "unable to setup ready endpoint" "" env.add_readyz_check
                  >> running agent
