-- ===== src/Main/Assembly.antt =====
-- main.go: what is registered and set up for a configuration, and when that succeeds.
use appuio_cloud_agent.Base.{String, ◌≡◌, ◌↔◌, List, none}
use appuio_cloud_agent.Kube.{UserInfo}
use appuio_cloud_agent.Config.{Config}
use appuio_cloud_agent.Main.Flags.{Flags}
use appuio_cloud_agent.Main.Environment.{Libraries, Manager, Environment}
use appuio_cloud_agent.Main.Run.{running, ◌>>=◌, ◌>>◌, check}
use appuio_cloud_agent.Main.Program.{Agent, new_agent, Step, run}
use appuio_cloud_agent.Main.Register.{
  register_ratio_controller, register_organization_rbac_controller,
  register_zone_k8s_version_controller, register_controllers,
}
use appuio_cloud_agent.Main.Admission.{
  register_node_selector_validation_webhooks, register_webhooks,
}
use appuio_cloud_agent.Main.Setup.{current_user, assemble}
use appuio_cloud_agent.Main.Steps.{
  >>=-running_iff, controllers_of, CanSetUp, after, run-then_iff, run-running_iff,
  check-run-then_iff,
}

module _ {S X L : Type 0} (lib : Libraries S) (env : Environment S lib.decimal.D X L)
    (mgr : Manager lib.decimal.D) where
  abbrev Conf : Type 0
  Conf = Config S lib.decimal.D X L

  -- What the agent consists of, for its flags, its configuration and its own name.
  abbrev pub agent_of : Flags → Conf → String → Agent lib env mgr
  agent_of f conf self = after lib env mgr (register_webhooks lib env mgr f conf self) (
      after lib env mgr (register_node_selector_validation_webhooks lib env mgr conf) (
        after lib env mgr (register_controllers lib env mgr f conf) (
          after lib env mgr
            (register_zone_k8s_version_controller lib env mgr f.upstream_zone_identifier)
            (after lib env mgr
              (register_organization_rbac_controller lib env mgr conf.organization_label
                conf.default_organization_cluster_roles)
              (after lib env mgr
                (register_ratio_controller lib env mgr conf conf.organization_label)
                (new_agent lib env mgr))))))

  -- All the parts can be put together.
  abbrev pub CanAssemble : Flags → Conf → UserInfo → Type 0
  CanAssemble f conf user =
      CanSetUp lib env mgr (
        controllers_of lib env mgr
          (register_ratio_controller lib env mgr conf conf.organization_label))
      × CanSetUp lib env mgr (
          controllers_of lib env mgr (
            register_organization_rbac_controller lib env mgr conf.organization_label
              conf.default_organization_cluster_roles))
      × (env.new_clientset ≡ none)
      × CanSetUp lib env mgr (
          controllers_of lib env mgr
            (register_zone_k8s_version_controller lib env mgr f.upstream_zone_identifier))
      × CanSetUp lib env mgr (controllers_of lib env mgr (register_controllers lib env mgr f conf))
      × (current_user lib env mgr ≡ running user)

  parts-running_iff :
      (r1 r2 r3 r4 r5 : List (Step lib env mgr)) (r6 : String → List (Step lib env mgr))
      (a0 a : Agent lib env mgr)
      → ((run lib env mgr r1 a0 >>= λ a1. run lib env mgr r2 a1 >>= λ a2.
            check "unable to create clientset for config" "zone-k8s-version" env.new_clientset
            >> run lib env mgr r3 a2
            >>= λ a3. run lib env mgr r4 a3 >>= λ a4. current_user lib env mgr >>= λ user.
                run lib env mgr r5 a4 >>= λ a5. run lib env mgr (r6 user.username) a5)
          ≡ running a)
        ↔ ((user : UserInfo) × (CanSetUp lib env mgr (controllers_of lib env mgr r1)
              × CanSetUp lib env mgr (controllers_of lib env mgr r2)
              × (env.new_clientset ≡ none)
              × CanSetUp lib env mgr (controllers_of lib env mgr r3)
              × CanSetUp lib env mgr (controllers_of lib env mgr r4)
              × (current_user lib env mgr ≡ running user))
            × CanSetUp lib env mgr (controllers_of lib env mgr r5)
            × CanSetUp lib env mgr (controllers_of lib env mgr (r6 user.username))
            × (a
                ≡ after lib env mgr (r6 user.username) (
                    after lib env mgr r5 (
                      after lib env mgr r4
                        (after lib env mgr r3 (after lib env mgr r2 (after lib env mgr r1 a0)))))))
  parts-running_iff r1 r2 r3 r4 r5 r6 a0 a =
      let a1 = after lib env mgr r1 a0 in
      let a2 = after lib env mgr r2 a1 in
      let a3 = after lib env mgr r3 a2 in
      let a4 = after lib env mgr r4 a3 in
      let a5 = after lib env mgr r5 a4 in
      (
        λ h0.
            (let (s1, h1) = (run-then_iff lib env mgr r1 a0 _ a).0 h0 in
              let (s2, h2) = (run-then_iff lib env mgr r2 a1 _ a).0 h1 in
              let (cl, s3, h3) =
                (check-run-then_iff lib env mgr "unable to create clientset for config"
                    "zone-k8s-version" env.new_clientset r3 a2 _ a).0
                  h2 in
              let (s4, h4) = (run-then_iff lib env mgr r4 a3 _ a).0 h3 in
              let (user, known, h5) = (>>=-running_iff (current_user lib env mgr) _ a).0 h4 in
              let (s5, h6) = (run-then_iff lib env mgr r5 a4 _ a).0 h5 in
              let (s6, same) = (run-running_iff lib env mgr (r6 user.username) a5 a).0 h6 in
              (user, (s1, s2, cl, s3, s4, known), s5, s6, same)),
        λ (user, (s1, s2, cl, s3, s4, known), s5, s6, same).
            (let h6 = (run-running_iff lib env mgr (r6 user.username) a5 a).1 (s6, same) in
              let h5 =
                (run-then_iff lib env mgr r5 a4 (λ z. run lib env mgr (r6 user.username) z) a).1
                  (s5, h6) in
              let h4 =
                (>>=-running_iff (current_user lib env mgr)
                    (λ u. run lib env mgr r5 a4 >>= λ z. run lib env mgr (r6 u.username) z) a).1
                  (user, known, h5) in
              let h3 = (run-then_iff lib env mgr r4 a3 _ a).1 (s4, h4) in
              let h2 =
                (check-run-then_iff lib env mgr "unable to create clientset for config"
                    "zone-k8s-version" env.new_clientset r3 a2 _ a).1
                  (cl, s3, h3) in
              let h1 = (run-then_iff lib env mgr r2 a1 _ a).1 (s2, h2) in
              (run-then_iff lib env mgr r1 a0 _ a).1 (s1, h1)),
      )

  pub assemble-running_iff :
      (f : Flags) (conf : Conf) (a : Agent lib env mgr)
      → (assemble lib env mgr f conf ≡ running a)
        ↔ ((user : UserInfo) × CanAssemble f conf user × (a ≡ agent_of f conf user.username))
  unfolding assemble register_node_selector_validation_webhooks register_webhooks
  assemble-running_iff f conf a =
      let parts =
        parts-running_iff (register_ratio_controller lib env mgr conf conf.organization_label)
          (register_organization_rbac_controller lib env mgr conf.organization_label
            conf.default_organization_cluster_roles)
          (register_zone_k8s_version_controller lib env mgr f.upstream_zone_identifier)
          (register_controllers lib env mgr f conf)
          (register_node_selector_validation_webhooks lib env mgr conf)
          (register_webhooks lib env mgr f conf) (new_agent lib env mgr) a in
      (
        λ h. (let (user, can, _, _, same) = parts.0 h in (user, can, same)),
        λ (user, can, same). parts.1 (user, can, tt, tt, same),
      )
