-- ===== src/Main/Tests.antt =====
-- Runs of `main`, and the theorems at a concrete cluster.
use appuio_cloud_agent.Base.{
  ℤ, String, true, false, ◌≡◌, refl, ◌↔◌, ◌⊎◌, List, [], ◌∷◌, none, some, All, eq_iff, arith, ◌==◌,
}
use appuio_cloud_agent.Kube.{is_allowed, Response, errorf, ok, text}
use appuio_cloud_agent.Config.{Config, config_from_file, migrate_config, validate}
use appuio_cloud_agent.Whoami.{whoami, whoami_for_config_and_client}
use appuio_cloud_agent.Webhooks.Samples.{request, bare, exact}
use appuio_cloud_agent.Controllers.ClusterSource.{from_url_and_bearer_token}
use appuio_cloud_agent.Main.Run.{running, exited}
use appuio_cloud_agent.Main.Program.{do_step, run}
use appuio_cloud_agent.Main.Register.{
  register_ratio_controller, register_organization_rbac_controller,
  register_zone_k8s_version_controller, register_controllers,
}
use appuio_cloud_agent.Main.Admission.{
  register_node_selector_validation_webhooks, register_webhooks,
}
use appuio_cloud_agent.Main.Setup.{control_api_cluster, current_user, assemble, main}
use appuio_cloud_agent.Main.Start.{Starts, main-running_iff}
use appuio_cloud_agent.Main.Serve.{answer, serve, skipped}
use appuio_cloud_agent.Main.Exempt.{serve_self}
use appuio_cloud_agent.Main.Disabled.{serve-disabled}
use appuio_cloud_agent.Main.Privileged.{IsPrivileged}
use appuio_cloud_agent.Main.Limited.{MayCreate, serve-MayCreate_iff}
use appuio_cloud_agent.Main.Entitled.{IsEntitled, serve-IsEntitled_iff}
use appuio_cloud_agent.Main.Samples.{
  config, namespaces, enabled, enabled_agent, lib, mgr, myself, env, labelled, flags, the_agent,
}

main_runs : main lib labelled mgr flags ≡ running the_agent
unfolding main config_from_file migrate_config validate control_api_cluster
    from_url_and_bearer_token assemble current_user whoami whoami_for_config_and_client run do_step
    register_ratio_controller register_organization_rbac_controller
    register_zone_k8s_version_controller register_controllers
    register_node_selector_validation_webhooks register_webhooks
main_runs = refl

enabled_runs : main lib labelled namespaces enabled ≡ running enabled_agent
unfolding main config_from_file migrate_config validate control_api_cluster
    from_url_and_bearer_token assemble current_user whoami whoami_for_config_and_client run do_step
    register_ratio_controller register_organization_rbac_controller
    register_zone_k8s_version_controller register_controllers
    register_node_selector_validation_webhooks register_webhooks
enabled_runs = refl

main-running_iff_example : (main lib labelled mgr flags ≡ running the_agent) ↔ (
    (conf : Config String ℤ (Unit {0}) (Unit {0})) × (warnings : List String) × (config_from_file
        labelled.read_file labelled.unmarshal labelled.no_selector flags.config_file
      ≡ ok (conf, warnings))
    × Starts lib labelled mgr flags conf the_agent)
main-running_iff_example = main-running_iff lib labelled mgr flags the_agent

-- Without an organization label the program exits.
unlabelled :
    main lib (env "") mgr flags
    ≡ exited "invalid configuration" "" (some (errorf (text "OrganizationLabel must not be empty")))
unfolding main config_from_file migrate_config validate
unlabelled = refl

-- Without an identifier of the zone as well.
no_zone :
    main lib labelled mgr (record flags { upstream_zone_identifier = "" })
    ≡ exited "upstream-zone-identifier must be set." "" none
unfolding main config_from_file migrate_config validate control_api_cluster
    from_url_and_bearer_token
no_zone = refl

known : current_user lib labelled mgr ≡ running myself
unfolding current_user whoami whoami_for_config_and_client
known = refl

serve_self_example :
    All
      (λ path.
        serve lib labelled mgr the_agent path (request myself.username "Service" "web") ≡ skipped)
      ("/validate-namespace-quota" ∷ "/validate-service-cloudscale-lb"
        ∷ "/validate-reserved-resourcequota-limitrange" ∷ "/validate-namespace-metadata" ∷ [])
    × (((request myself.username "Service" "web").kind ≡ "Project")
        ⊎ (serve lib labelled mgr the_agent "/mutate-namespace-project-organization"
              (request myself.username "Service" "web")
            ≡ skipped))
serve_self_example =
    serve_self lib labelled mgr flags the_agent (request myself.username "Service" "web") myself
      main_runs known refl refl

serve-disabled_example :
    ((false ≡ true)
      ⊎ (serve lib labelled mgr the_agent "/validate-service-cloudscale-lb"
            (request "jane" "Service" "web")
          ≡ skipped))
    × ((false ≡ true)
        ⊎ (serve lib labelled mgr the_agent "/validate-reserved-resourcequota-limitrange"
              (request "jane" "Service" "web")
            ≡ skipped))
    × ((false ≡ true)
        ⊎ (serve lib labelled mgr the_agent "/validate-namespace-metadata"
              (request "jane" "Service" "web")
            ≡ skipped))
    × ((false ≡ true)
        ⊎ (serve lib labelled mgr the_agent "/mutate-pod-run-once-active-deadline"
              (request "jane" "Service" "web")
            ≡ skipped))
    × ((false ≡ true)
        ⊎ (((request "jane" "Service" "web").kind ≡ "Project")
            ⊎ (serve lib labelled mgr the_agent "/mutate-namespace-project-organization"
                  (request "jane" "Service" "web")
                ≡ skipped)))
serve-disabled_example =
    serve-disabled lib labelled mgr flags the_agent (request "jane" "Service" "web") main_runs

known_enabled : current_user lib labelled namespaces ≡ running myself
unfolding current_user whoami whoami_for_config_and_client
known_enabled = refl

config_read :
    config_from_file labelled.read_file labelled.unmarshal labelled.no_selector enabled.config_file
    ≡ ok (config "appuio.io/organization", [])
unfolding config_from_file migrate_config
config_read = refl

serve-MayCreate_iff_example :
    (r : Response) × (serve lib labelled namespaces enabled_agent "/validate-namespace-quota"
        (request "jane" "Namespace" "web")
      ≡ answer r)
    × ((is_allowed r ≡ true)
        ↔ MayCreate lib labelled namespaces enabled
            (config "appuio.io/organization")
            myself
            (request "jane" "Namespace" "web")
            (bare "Namespace")
            [])
serve-MayCreate_iff_example =
    serve-MayCreate_iff lib labelled namespaces enabled enabled_agent
      (config "appuio.io/organization") [] myself (request "jane" "Namespace" "web")
      (bare "Namespace") [] enabled_runs config_read known_enabled refl refl

serve-IsEntitled_iff_example :
    (r : Response) × (serve lib labelled namespaces enabled_agent
        "/mutate-namespace-project-organization"
        (request "jane" "Namespace" "web")
      ≡ answer r)
    × ((is_allowed r ≡ true) ↔ (
        IsPrivileged exact
          (config "appuio.io/organization")
          myself.username
          (request "jane" "Namespace" "web").user_info
          []
        ⊎ IsEntitled lib labelled namespaces
            (config "appuio.io/organization")
            "jane"
            (bare "Namespace")))
serve-IsEntitled_iff_example =
    serve-IsEntitled_iff lib labelled namespaces enabled enabled_agent
      (config "appuio.io/organization") [] myself (request "jane" "Namespace" "web")
      (bare "Namespace") [] enabled_runs config_read known_enabled refl
      (λ e.
        (let k : ("Namespace" == "Project") ≡ true = (eq_iff "Namespace" "Project").1 e in
          absurd (ground arith)))
      refl refl refl
