-- ===== src/Main/Disabled.antt =====
-- main.go: the webhooks whose flag is not set.
use mathlib.Core.Path.{subst}
use appuio_cloud_agent.Base.{
  index, starts_with, String, Bool, Bool-cases, true, false, not, ◌≡◌, refl, sym, ap, ◌∙◌, ◌⊎◌, inl,
  inr, none, Dict, lookup, arith,
}
use appuio_cloud_agent.Kube.{ok, denied, Unstructured, Request, Response, text, allowed}
use appuio_cloud_agent.Config.{Config}
use appuio_cloud_agent.Skipper.Skip.{static_skip, multi_skip}
use appuio_cloud_agent.Webhooks.Organization.{openshift_project_requester_annotation}
use appuio_cloud_agent.Skipper.UserInfo.{sa_prefix}
use appuio_cloud_agent.Main.Flags.{Flags}
use appuio_cloud_agent.Main.Environment.{Libraries, Manager, Handler, Environment}
use appuio_cloud_agent.Main.Run.{running}
use appuio_cloud_agent.Main.Program.{Agent}
use appuio_cloud_agent.Main.Admission.{
  enabled_or_psk, service_cloudscale_lb_validator, reserved_validator, organization_mutator,
  metadata_validator, run_once_mutator, register_node_selector_validation_webhooks,
  register_webhooks,
}
use appuio_cloud_agent.Main.Setup.{main}
use appuio_cloud_agent.Main.Register.{register_ratio_controller}
use appuio_cloud_agent.Main.Skipped.{
  service_lb_skipped, reserved_skipped, metadata_skipped, run_once_skipped, organization_skipped,
  project_denied,
}
use appuio_cloud_agent.Main.Serve.{answer, answered, skipped, serve, registered, main-agent_of}

unless_enabled :
    (b : Bool) (r : Response)
    → (b ≡ false → r ≡ allowed (text "skipped"))
    → (b ≡ true) ⊎ (answer r ≡ skipped)
unless_enabled true r h = inl refl
unless_enabled false r h = inr (ap answer (h refl))

static_skip-disabled :
    (enabled : Bool) (req : Request)
    → enabled ≡ false
    → static_skip (not enabled) req ≡ (true, none)
unfolding static_skip
static_skip-disabled true req h = absurd (ground arith)
static_skip-disabled false req h = refl

module _ {S X L : Type 0} (lib : Libraries S) (env : Environment S lib.decimal.D X L)
    (mgr : Manager lib.decimal.D) where
  abbrev Conf : Type 0
  Conf = Config S lib.decimal.D X L

  -- A static skipper answers for a webhook that is not enabled.
  enabled_or_psk-disabled :
      (enabled : Bool) (conf : Conf) (self : String) (req : Request)
      → enabled ≡ false
      → enabled_or_psk lib env mgr enabled conf self req ≡ (true, none)
  unfolding multi_skip static_skip
  enabled_or_psk-disabled true conf self req h = absurd (ground arith)
  enabled_or_psk-disabled false conf self req h = refl

  skipped-disabled :
      (f : Flags) (conf : Conf) (self : String) (req : Request)
      → let hs = registered lib env mgr conf (register_webhooks lib env mgr f conf self) in
        ((f.cloudscale_loadbalancer_validation_enabled ≡ true)
          ⊎ (answered (lookup "/validate-service-cloudscale-lb" hs) req ≡ skipped))
        × ((f.legacy_resource_quota_enabled ≡ true)
            ⊎ (answered (lookup "/validate-reserved-resourcequota-limitrange" hs) req ≡ skipped))
        × ((f.namespace_metadata_validator_enabled ≡ true)
            ⊎ (answered (lookup "/validate-namespace-metadata" hs) req ≡ skipped))
        × ((f.pod_run_once_active_deadline_seconds_mutator_enabled ≡ true)
            ⊎ (answered (lookup "/mutate-pod-run-once-active-deadline" hs) req ≡ skipped))
        × ((f.namespace_project_organization_mutator_enabled ≡ true)
            ⊎ ((req.kind ≡ "Project")
                ⊎ (answered (lookup "/mutate-namespace-project-organization" hs) req ≡ skipped)))
  unfolding register_ratio_controller register_node_selector_validation_webhooks register_webhooks
  skipped-disabled f conf self req =
      let multi = λ (b : Bool) (h : b ≡ false). enabled_or_psk-disabled b conf self req h in
      (
        unless_enabled f.cloudscale_loadbalancer_validation_enabled _ (λ off.
            service_lb_skipped (service_cloudscale_lb_validator lib env mgr f conf self) req
              (multi f.cloudscale_loadbalancer_validation_enabled off)),
        unless_enabled f.legacy_resource_quota_enabled _ (λ off.
            reserved_skipped (reserved_validator lib env mgr f conf self) req
              (multi f.legacy_resource_quota_enabled off)),
        unless_enabled f.namespace_metadata_validator_enabled _ (λ off.
            metadata_skipped lib.sets lib.match lib.multierr
              (metadata_validator lib env mgr f conf self) req
              (multi f.namespace_metadata_validator_enabled off)),
        unless_enabled f.pod_run_once_active_deadline_seconds_mutator_enabled _ (λ off.
            run_once_skipped (run_once_mutator lib env mgr f conf) req (
              static_skip-disabled f.pod_run_once_active_deadline_seconds_mutator_enabled req off)),
        elim (Bool-cases f.namespace_project_organization_mutator_enabled) [
          | inl on ↦ inl on
          | inr off ↦
              inr
                (elim (organization_skipped (organization_mutator lib env mgr f conf self) req
                  (multi f.namespace_project_organization_mutator_enabled off)) [
                    | inl project ↦ inl project
                    | inr skips ↦ inr (ap answer skips)
                  ])
        ],
      )

  -- Once the agent runs, the webhooks for load balancers, reserved objects, metadata and deadlines admit
  -- every request unless the flag of the webhook is set, and the webhook for organizations admits every
  -- request that is not for a project unless its flag is set. The flag of the webhook for reserved
  -- objects is the one for legacy resource quotas.
  pub serve-disabled :
      (f : Flags) (a : Agent lib env mgr) (req : Request)
      → main lib env mgr f ≡ running a
      → ((f.cloudscale_loadbalancer_validation_enabled ≡ true)
          ⊎ (serve lib env mgr a "/validate-service-cloudscale-lb" req ≡ skipped))
        × ((f.legacy_resource_quota_enabled ≡ true)
            ⊎ (serve lib env mgr a "/validate-reserved-resourcequota-limitrange" req ≡ skipped))
        × ((f.namespace_metadata_validator_enabled ≡ true)
            ⊎ (serve lib env mgr a "/validate-namespace-metadata" req ≡ skipped))
        × ((f.pod_run_once_active_deadline_seconds_mutator_enabled ≡ true)
            ⊎ (serve lib env mgr a "/mutate-pod-run-once-active-deadline" req ≡ skipped))
        × ((f.namespace_project_organization_mutator_enabled ≡ true)
            ⊎ ((req.kind ≡ "Project")
                ⊎ (serve lib env mgr a "/mutate-namespace-project-organization" req ≡ skipped)))
  serve-disabled f a req h =
      let (conf, user, _, _, handlers) = main-agent_of lib env mgr f a h in
      subst
        (λ (hs : Dict Handler).
          ((f.cloudscale_loadbalancer_validation_enabled ≡ true)
            ⊎ (answered (lookup "/validate-service-cloudscale-lb" hs) req ≡ skipped))
          × ((f.legacy_resource_quota_enabled ≡ true)
              ⊎ (answered (lookup "/validate-reserved-resourcequota-limitrange" hs) req ≡ skipped))
          × ((f.namespace_metadata_validator_enabled ≡ true)
              ⊎ (answered (lookup "/validate-namespace-metadata" hs) req ≡ skipped))
          × ((f.pod_run_once_active_deadline_seconds_mutator_enabled ≡ true)
              ⊎ (answered (lookup "/mutate-pod-run-once-active-deadline" hs) req ≡ skipped))
          × ((f.namespace_project_organization_mutator_enabled ≡ true)
              ⊎ ((req.kind ≡ "Project")
                  ⊎ (answered (lookup "/mutate-namespace-project-organization" hs) req ≡ skipped))))
        (sym handlers) (skipped-disabled f conf user.username req)

  -- Even when the flag of the webhook for organizations is not set, it refuses a project whose object
  -- can be decoded and names a service account as its requester, once the agent runs.
  pub serve-project :
      (f : Flags) (a : Agent lib env mgr) (req : Request) (raw : Unstructured)
      → main lib env mgr f ≡ running a
      → f.namespace_project_organization_mutator_enabled ≡ false
      → req.kind ≡ "Project"
      → mgr.unstructured.decode req ≡ ok raw
      → starts_with (index openshift_project_requester_annotation raw.annotations) sa_prefix ≡ true
      → serve lib env mgr a "/mutate-namespace-project-organization" req
        ≡ answer (denied (text "Service accounts are not allowed to create projects"))
  unfolding register_ratio_controller register_node_selector_validation_webhooks register_webhooks
  serve-project f a req raw h off project decoded sa =
      let (conf, user, _, _, handlers) = main-agent_of lib env mgr f a h in
      ap (λ (hs : Dict Handler). answered (lookup "/mutate-namespace-project-organization" hs) req)
        handlers
      ∙ ap answer (
          project_denied (organization_mutator lib env mgr f conf user.username) req raw
            (enabled_or_psk-disabled f.namespace_project_organization_mutator_enabled conf
              user.username req off)
            project decoded sa)
