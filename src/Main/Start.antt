-- ===== src/Main/Start.antt =====
-- main.go: when the managers are started, and with what.
use appuio_cloud_agent.Base.{
  String, Bool-cases, if_then, if_else, ◌≡◌, ◌≢◌, refl, sym, ap, ◌∙◌, ◌↔◌, inl, inr, List, [], none,
  ◌==◌, eq_iff, arith,
}
use appuio_cloud_agent.Kube.{errorf, text, ok, UserInfo, Multierr}
use appuio_cloud_agent.Config.{Config, config_from_file, validate}
use appuio_cloud_agent.Main.Flags.{Flags}
use appuio_cloud_agent.Main.Environment.{Libraries, Manager, Environment}
use appuio_cloud_agent.Main.Run.{running, ◌>>=◌, ◌>>◌, or_exit, check}
use appuio_cloud_agent.Main.Program.{Agent}
use appuio_cloud_agent.Main.Setup.{control_api_cluster, zone_given, assemble, main}
use appuio_cloud_agent.Main.Steps.{
  or_exit-running_iff, check-then_iff, checks-then_iff, >>=-running_iff,
}
use appuio_cloud_agent.Main.Assembly.{agent_of, CanAssemble, assemble-running_iff}

pub validate_iff :
    {S D X L : Type 0} (multierr : Multierr) (conf : Config S D X L)
    → (validate multierr conf ≡ none) ↔ (conf.organization_label ≢ "")
unfolding validate
validate_iff multierr conf = elim (Bool-cases (conf.organization_label == "")) [
  | inl unset ↦ (
    λ h. absurd (
        multierr.combine-cons (errorf (text "OrganizationLabel must not be empty")) []
          (sym (ap multierr.combine (if_then (conf.organization_label == "") _ _ unset)) ∙ h)),
    λ set. absurd (set ((eq_iff conf.organization_label "").0 unset)),
  )
  | inr set ↦ (
    λ h e. (let e' = (eq_iff conf.organization_label "").1 e in absurd (ground arith)),
    λ h.
        ap multierr.combine (if_else (conf.organization_label == "") _ _ set)
        ∙ multierr.combine-nil,
  )
]

module _ {S X L : Type 0} (lib : Libraries S) (env : Environment S lib.decimal.D X L)
    (mgr : Manager lib.decimal.D) where
  abbrev Conf : Type 0
  Conf = Config S lib.decimal.D X L

  zone_given-running_iff :
      (zone : String) → (zone_given lib env mgr zone ≡ running tt) ↔ (zone ≢ "")
  zone_given-running_iff zone = elim (Bool-cases (zone == "")) [
    | inl unset ↦ rw unset (λ h. absurd (cc), λ set. absurd (set ((eq_iff zone "").0 unset)))
    | inr set ↦ rw set (λ h e. (let e' = (eq_iff zone "").1 e in absurd (ground arith)), λ h. refl)
  ]

  -- What has to hold for the managers to be started, once the configuration is read.
  abbrev pub Starts : Flags → Conf → Agent lib env mgr → Type 0
  Starts f conf a =
      (cluster : env.clusters.Cluster) × (user : UserInfo) × (conf.organization_label ≢ "")
      × (control_api_cluster lib env mgr f ≡ running cluster)
      × (env.get_config ≡ none)
      × (env.new_manager ≡ none)
      × (f.upstream_zone_identifier ≢ "")
      × CanAssemble lib env mgr f conf user
      × (env.add_healthz_check ≡ none)
      × (env.add_readyz_check ≡ none)
      × (a ≡ agent_of lib env mgr f conf user.username)

  managed-running_iff :
      (f : Flags) (conf : Conf) (a : Agent lib env mgr)
      → ((check "unable to get kubeconfig" "" env.get_config
            >> check "unable to setup manager" "" env.new_manager
            >> zone_given lib env mgr f.upstream_zone_identifier
            >> assemble lib env mgr f conf)
          ≡ running a)
        ↔ ((env.get_config ≡ none)
            × (env.new_manager ≡ none)
            × (f.upstream_zone_identifier ≢ "")
            × (assemble lib env mgr f conf ≡ running a))
  managed-running_iff f conf a =
      let before =
        checks-then_iff "unable to get kubeconfig" "" "unable to setup manager" "" env.get_config
          env.new_manager (zone_given lib env mgr f.upstream_zone_identifier) tt in
      let zone = zone_given-running_iff f.upstream_zone_identifier in
      let all =
        >>=-running_iff
          (check "unable to get kubeconfig" "" env.get_config
            >> check "unable to setup manager" "" env.new_manager
            >> zone_given lib env mgr f.upstream_zone_identifier)
          (λ _. assemble lib env mgr f conf) a in
      (
        λ h.
            (let (u, did, made) = all.0 h in
              let (got, new, set) = before.0 did in (got, new, zone.0 set, made)),
        λ (got, new, set, made). all.1 (tt, before.1 (got, new, zone.1 set), made),
      )

  configured-running_iff :
      (f : Flags) (conf : Conf) (a : Agent lib env mgr)
      → ((check "invalid configuration" "" (validate lib.multierr conf)
            >> control_api_cluster lib env mgr f
            >>= λ cluster.
                check "unable to get kubeconfig" "" env.get_config
                >> check "unable to setup manager" "" env.new_manager
                >> zone_given lib env mgr f.upstream_zone_identifier
                >> assemble lib env mgr f conf
                >>= λ agent.
                    check "unable to setup health endpoint" "" env.add_healthz_check
                    >> check "unable to setup ready endpoint" "" env.add_readyz_check
                    >> running agent)
          ≡ running a)
        ↔ Starts f conf a
  configured-running_iff f conf a =
      let health = λ (agent : Agent lib env mgr).
        checks-then_iff "unable to setup health endpoint" "" "unable to setup ready endpoint" ""
          env.add_healthz_check env.add_readyz_check (running agent) a in
      let valid = validate_iff lib.multierr conf in
      let first = λ (cluster : env.clusters.Cluster).
        check-then_iff "invalid configuration" "" (validate lib.multierr conf)
          (control_api_cluster lib env mgr f) cluster in
      let last = λ (agent : Agent lib env mgr).
        check "unable to setup health endpoint" "" env.add_healthz_check
        >> check "unable to setup ready endpoint" "" env.add_readyz_check
        >> running agent in
      let managed =
        check "unable to get kubeconfig" "" env.get_config
        >> check "unable to setup manager" "" env.new_manager
        >> zone_given lib env mgr f.upstream_zone_identifier
        >> assemble lib env mgr f conf in
      let outer =
        >>=-running_iff
          (check "invalid configuration" "" (validate lib.multierr conf)
            >> control_api_cluster lib env mgr f)
          (λ _. managed >>= last) a in
      let inner = >>=-running_iff managed last a in
      (
        λ h.
            (let (cluster, did, h2) = outer.0 h in
              let (fine, got) = (first cluster).0 did in
              let (agent, made, h3) = inner.0 h2 in
              let (kube, new, zone, parts) = (managed-running_iff f conf agent).0 made in
              let (user, can, same) = (assemble-running_iff lib env mgr f conf agent).0 parts in
              let (hz, rz, end) = (health agent).0 h3 in
              let moved : agent ≡ a = cc in
              (cluster, user, valid.0 fine, got, kube, new, zone, can, hz, rz, sym moved ∙ same)),
        λ (cluster, user, set, got, kube, new, zone, can, hz, rz, same).
            (let parts = (assemble-running_iff lib env mgr f conf a).1 (user, can, same) in
              outer.1 (
                cluster,
                (first cluster).1 (valid.1 set, got),
                inner.1 (
                  a,
                  (managed-running_iff f conf a).1 (kube, new, zone, parts),
                  (health a).1 (hz, rz, refl),
                ),
              )),
      )

  -- The program starts its managers exactly when the configuration can be read and names an organization
  -- label, the cluster of the control API is available, the kubeconfig and the manager are, a zone
  -- identifier is given, there is a clientset, every controller that is to run can be set up, the own
  -- user is found out, and the health checks are added; what it then runs is determined by the flags,
  -- the configuration and the own name.
  pub main-running_iff :
      (f : Flags) (a : Agent lib env mgr)
      → (main lib env mgr f ≡ running a) ↔ (
          (conf : Conf) × (warnings : List String) × (config_from_file env.read_file env.unmarshal
              env.no_selector f.config_file
            ≡ ok (conf, warnings))
          × Starts f conf a)
  unfolding main
  main-running_iff f a =
      let read = config_from_file env.read_file env.unmarshal env.no_selector f.config_file in
      let all = >>=-running_iff (or_exit "unable to read config file" read) _ a in
      let readable =
        λ (c : Conf × List String). or_exit-running_iff "unable to read config file" read c in
      (
        λ h.
            (let (c, got, rest) = all.0 h in
              (c.0, c.1, (readable c).0 got, (configured-running_iff f c.0 a).0 rest)),
        λ (conf, warnings, got, starts). all.1 (
          (conf, warnings),
          (readable (conf, warnings)).1 got,
          (configured-running_iff f conf a).1 starts,
        ),
      )
