-- ===== src/Main/Serve.antt =====
-- main.go: what the webhook server does with a request once the agent runs.
use mathlib.Core.Path.{subst}
use appuio_cloud_agent.Base.{
  String, Bool, true, false, not, ◌≡◌, refl, sym, ap, ◌∙◌, List, [], ◌∷◌, ◌++◌, Option, none, some,
  Dict, IsMap, lookup, keys,
}
use appuio_cloud_agent.Kube.{ok, Request, Response, text, allowed, UserInfo}
use appuio_cloud_agent.Config.{Config, config_from_file}
use appuio_cloud_agent.Main.Flags.{Flags}
use appuio_cloud_agent.Main.Environment.{
  Libraries, Manager, legacy_resource_quota, Answer, plain, Handler, Environment,
}
use appuio_cloud_agent.Main.Run.{running}
use appuio_cloud_agent.Main.Program.{Agent, Step, set_up, when}
use appuio_cloud_agent.Main.Setup.{current_user, main}
use appuio_cloud_agent.Main.Register.{
  register_ratio_controller, register_organization_rbac_controller,
  register_zone_k8s_version_controller, register_controllers,
}
use appuio_cloud_agent.Main.Admission.{
  register_node_selector_validation_webhooks, register_webhooks,
}
use appuio_cloud_agent.Main.Steps.{handlers_of, handlers_of-append}
use appuio_cloud_agent.Main.Assembly.{agent_of}
use appuio_cloud_agent.Main.Start.{main-running_iff}

abbrev pub answered : Option Handler → Request → Option Answer
answered none req = none
answered (some h) req = some (h req)

abbrev pub answer : Response → Option Answer
answer r = some (plain r)

abbrev pub skipped : Option Answer
skipped = answer (allowed (text "skipped"))

abbrev pub paths : List String
paths =
    "/validate-request-ratio" ∷ "/mutate-pod-node-selector" ∷ "/validate-namespace-quota"
    ∷ "/validate-service-cloudscale-lb" ∷ "/validate-reserved-resourcequota-limitrange"
    ∷ "/mutate-namespace-project-organization" ∷ "/validate-namespace-metadata"
    ∷ "/mutate-pod-run-once-active-deadline" ∷ []

module _ {S X L : Type 0} (lib : Libraries S) (env : Environment S lib.decimal.D X L)
    (mgr : Manager lib.decimal.D) where
  abbrev Conf : Type 0
  Conf = Config S lib.decimal.D X L

  -- The webhook server passes a request to the handler of its path.
  abbrev pub serve : Agent lib env mgr → String → Request → Option Answer
  serve a path req = answered (lookup path a.handlers) req

  -- Steps that only set up controllers.
  handlers_of-none :
      (b : Bool) (ss ts : List (Step lib env mgr))
      → handlers_of lib env mgr ss ≡ []
      → handlers_of lib env mgr ts ≡ []
      → handlers_of lib env mgr (when lib env mgr b ss ++ ts) ≡ []
  handlers_of-none true ss ts h k =
      handlers_of-append lib env mgr ss ts ∙ ap (λ z. z ++ handlers_of lib env mgr ts) h ∙ k
  handlers_of-none false ss ts h k = k

  handlers_of-register_controllers :
      (f : Flags) (conf : Conf)
      → handlers_of lib env mgr (register_controllers lib env mgr f conf) ≡ []
  unfolding register_controllers
  handlers_of-register_controllers f conf =
      handlers_of-none (not f.disable_user_attribute_sync) _ _ refl (
        handlers_of-none (not f.disable_group_sync) _ _ refl (
          handlers_of-none (not f.disable_usage_profiles) _ _ refl
            (last f.legacy_resource_quota_enabled)))
    where
      last :
          (b : Bool)
          → handlers_of lib env mgr (
              when lib env mgr b (
                set_up "legacy-resource-quota-controller" (
                  legacy_resource_quota conf.organization_label
                    conf.legacy_resource_quota_annotation_base conf.legacy_default_resource_quotas
                    conf.legacy_limit_range_name conf.legacy_default_limit_range)
                ∷ []))
            ≡ []
      last true = refl
      last false = refl

  abbrev pub registered : Conf → List (Step lib env mgr) → Dict Handler
  registered conf rest =
      handlers_of lib env mgr (register_ratio_controller lib env mgr conf conf.organization_label)
      ++ handlers_of lib env mgr (register_node_selector_validation_webhooks lib env mgr conf)
      ++ handlers_of lib env mgr rest

  agent_of-handlers :
      (f : Flags) (conf : Conf) (self : String)
      → (agent_of lib env mgr f conf self).handlers
        ≡ registered conf (register_webhooks lib env mgr f conf self)
  unfolding register_ratio_controller register_organization_rbac_controller
      register_zone_k8s_version_controller register_node_selector_validation_webhooks
      register_webhooks
  agent_of-handlers f conf self =
      ap
        (λ cs.
          ((handlers_of lib env mgr
                (register_ratio_controller lib env mgr conf conf.organization_label)
              ++ cs)
            ++ handlers_of lib env mgr
                (register_node_selector_validation_webhooks lib env mgr conf))
          ++ handlers_of lib env mgr (register_webhooks lib env mgr f conf self))
        (handlers_of-register_controllers f conf)

  pub main-agent_of :
      (f : Flags) (a : Agent lib env mgr)
      → main lib env mgr f ≡ running a
      → (conf : Conf) × (user : UserInfo) × (current_user lib env mgr ≡ running user)
        × (a ≡ agent_of lib env mgr f conf user.username)
        × (a.handlers ≡ registered conf (register_webhooks lib env mgr f conf user.username))
  main-agent_of f a h =
      let (conf, _, _, starts) = (main-running_iff lib env mgr f a).0 h in
      let (_, user, _, _, _, _, _, (_, _, _, _, _, known), _, _, same) = starts in
      (
        conf,
        user,
        known,
        same,
        ap (λ (z : Agent lib env mgr). z.handlers) same ∙ agent_of-handlers f conf user.username,
      )

  -- Once the agent runs, the webhook server has eight paths, whatever the flags and the configuration
  -- are, and no path is registered twice, at which the server would panic.
  pub main-IsMap :
      (f : Flags) (a : Agent lib env mgr)
      → main lib env mgr f ≡ running a
      → IsMap a.handlers × (keys a.handlers ≡ paths)
  unfolding register_ratio_controller register_node_selector_validation_webhooks register_webhooks
  main-IsMap f a h =
      let (conf, user, _, _, same) = main-agent_of f a h in
      subst (λ (z : Dict Handler). IsMap z × (keys z ≡ paths)) (sym same)
        ((refl, (refl, (refl, (refl, (refl, (refl, (refl, (refl, tt)))))))), refl)

  -- What is registered, by the configuration that is read and the own user.
  pub main-registered :
      (f : Flags) (a : Agent lib env mgr) (conf : Conf) (warnings : List String) (user : UserInfo)
      → main lib env mgr f ≡ running a
      → config_from_file env.read_file env.unmarshal env.no_selector f.config_file
        ≡ ok (conf, warnings)
      → current_user lib env mgr ≡ running user
      → a.handlers ≡ registered conf (register_webhooks lib env mgr f conf user.username)
  main-registered f a conf warnings user h got known =
      let (conf', warnings', got', starts) = (main-running_iff lib env mgr f a).0 h in
      let (_, user', _, _, _, _, _, (_, _, _, _, _, known'), _, _, same) = starts in
      let one : conf' ≡ conf = cc in
      let own : user' ≡ user = cc in
      ap (λ (z : Agent lib env mgr). z.handlers) same
      ∙ agent_of-handlers f conf' user'.username
      ∙ ap (λ (z : Conf). registered z (register_webhooks lib env mgr f z user'.username)) one
      ∙ ap (λ (u : UserInfo). registered conf (register_webhooks lib env mgr f conf u.username)) own
