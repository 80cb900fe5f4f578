-- ===== src/Main/Exempt.antt =====
-- main.go: the agent's own user, which is a privileged user of the webhooks.
use mathlib.Core.Path.{subst}
use appuio_cloud_agent.Base.{
  Bool, true, false, if_then, ◌≡◌, refl, sym, ap, ◌∙◌, ◌⊎◌, inl, inr, List, [], ◌∷◌, ◌++◌, none,
  Dict, lookup, All, any, arith,
}
use appuio_cloud_agent.Kube.{Request, UserInfo}
use appuio_cloud_agent.Config.{Config}
use appuio_cloud_agent.Skipper.Skip.{static_skip, multi_skip}
use appuio_cloud_agent.Skipper.Privileged.{privileged_skip}
use appuio_cloud_agent.Main.Flags.{Flags}
use appuio_cloud_agent.Main.Environment.{Libraries, Manager, Handler, Environment}
use appuio_cloud_agent.Main.Run.{running}
use appuio_cloud_agent.Main.Program.{Agent}
use appuio_cloud_agent.Main.Admission.{
  psk, enabled_or_psk, namespace_quota_validator, service_cloudscale_lb_validator,
  reserved_validator, organization_mutator, metadata_validator,
  register_node_selector_validation_webhooks, register_webhooks,
}
use appuio_cloud_agent.Main.Setup.{current_user, main}
use appuio_cloud_agent.Main.Register.{register_ratio_controller}
use appuio_cloud_agent.Main.Skipped.{
  quota_skipped, service_lb_skipped, reserved_skipped, metadata_skipped, organization_skipped,
}
use appuio_cloud_agent.Main.Serve.{answer, answered, skipped, serve, registered, main-agent_of}

any-last :
    {A : Type 0} (p : A → Bool) (xs : List A) (x : A) → p x ≡ true → any p (xs ++ (x ∷ [])) ≡ true
any-last p [] x h = ground arith
any-last p (y ∷ ys) x h = (let ih = any-last p ys x h in ground arith)

module _ {S X L : Type 0} (lib : Libraries S) (env : Environment S lib.decimal.D X L)
    (mgr : Manager lib.decimal.D) where
  abbrev Conf : Type 0
  Conf = Config S lib.decimal.D X L

  psk_self :
      (conf : Conf) (req : Request)
      → lib.match req.user_info.username req.user_info.username ≡ true
      → psk lib env mgr conf req.user_info.username req ≡ (true, none)
  unfolding privileged_skip
  psk_self conf req itself =
      if_then
        (any (λ pu. lib.match pu req.user_info.username)
          (conf.privileged_users ++ (req.user_info.username ∷ [])))
        _ _
        (any-last (λ pu. lib.match pu req.user_info.username) conf.privileged_users
          req.user_info.username itself)

  enabled_or_psk_self :
      (enabled : Bool) (conf : Conf) (req : Request)
      → lib.match req.user_info.username req.user_info.username ≡ true
      → enabled_or_psk lib env mgr enabled conf req.user_info.username req ≡ (true, none)
  unfolding multi_skip static_skip
  enabled_or_psk_self false conf req itself = refl
  enabled_or_psk_self true conf req itself = rw (psk_self conf req itself) refl

  -- The handlers that ask the skipper for privileged users let the agent's own user through.
  skipped_self :
      (f : Flags) (conf : Conf) (req : Request)
      → lib.match req.user_info.username req.user_info.username ≡ true
      → let hs =
          registered lib env mgr conf
            (register_webhooks lib env mgr f conf req.user_info.username) in
        All
          (λ path. answered (lookup path hs) req ≡ skipped)
          ("/validate-namespace-quota" ∷ "/validate-service-cloudscale-lb"
            ∷ "/validate-reserved-resourcequota-limitrange" ∷ "/validate-namespace-metadata" ∷ [])
        × ((req.kind ≡ "Project")
            ⊎ (answered (lookup "/mutate-namespace-project-organization" hs) req ≡ skipped))
  unfolding register_ratio_controller register_node_selector_validation_webhooks register_webhooks
  skipped_self f conf req itself =
      let self = req.user_info.username in
      let multi = λ (enabled : Bool). enabled_or_psk_self enabled conf req itself in
      let quota =
        quota_skipped (namespace_quota_validator lib env mgr f conf self) req
          (psk_self conf req itself) in
      let lb =
        service_lb_skipped (service_cloudscale_lb_validator lib env mgr f conf self) req
          (multi f.cloudscale_loadbalancer_validation_enabled) in
      let reserved =
        reserved_skipped (reserved_validator lib env mgr f conf self) req
          (multi f.legacy_resource_quota_enabled) in
      let metadata =
        metadata_skipped lib.sets lib.match lib.multierr
          (metadata_validator lib env mgr f conf self) req
          (multi f.namespace_metadata_validator_enabled) in
      let organization =
        organization_skipped (organization_mutator lib env mgr f conf self) req
          (multi f.namespace_project_organization_mutator_enabled) in
      (
        (ap answer quota, (ap answer lb, (ap answer reserved, (ap answer metadata, tt)))),
        elim organization [ inl project ↦ inl project | inr skips ↦ inr (ap answer skips) ],
      )

  -- Once the agent runs, a request of the agent's own user, whose name matches itself, is admitted by
  -- the webhooks for quotas, load balancers, reserved objects and metadata, and by the one for
  -- organizations unless it is for a project.
  pub serve_self :
      (f : Flags) (a : Agent lib env mgr) (req : Request) (user : UserInfo)
      → main lib env mgr f ≡ running a
      → current_user lib env mgr ≡ running user
      → req.user_info.username ≡ user.username
      → lib.match user.username user.username ≡ true
      → All
          (λ path. serve lib env mgr a path req ≡ skipped)
          ("/validate-namespace-quota" ∷ "/validate-service-cloudscale-lb"
            ∷ "/validate-reserved-resourcequota-limitrange" ∷ "/validate-namespace-metadata" ∷ [])
        × ((req.kind ≡ "Project")
            ⊎ (serve lib env mgr a "/mutate-namespace-project-organization" req ≡ skipped))
  serve_self f a req user h known own itself =
      let (conf, user', known', _, same) = main-agent_of lib env mgr f a h in
      let one : user ≡ user' = cc in
      let named : user'.username ≡ req.user_info.username =
        ap (λ (u : UserInfo). u.username) (sym one) ∙ sym own in
      let handlers : a.handlers
          ≡ registered lib env mgr conf
              (register_webhooks lib env mgr f conf req.user_info.username) =
        same
        ∙ ap (λ n. registered lib env mgr conf (register_webhooks lib env mgr f conf n)) named in
      subst
        (λ (hs : Dict Handler).
          All (λ path. answered (lookup path hs) req ≡ skipped)
            ("/validate-namespace-quota" ∷ "/validate-service-cloudscale-lb"
              ∷ "/validate-reserved-resourcequota-limitrange" ∷ "/validate-namespace-metadata" ∷ [])
          × ((req.kind ≡ "Project")
              ⊎ (answered (lookup "/mutate-namespace-project-organization" hs) req ≡ skipped)))
        (sym handlers)
        (skipped_self f conf req (subst (λ n. lib.match n n ≡ true) (sym own) itself))
