-- ===== src/Main/Limited.antt =====
-- main.go and webhooks/: whom the running agent lets create a namespace, by the quota of the organization.
use Prim.Native.String.{◌++◌ as str_append}
use appuio_cloud_agent.Base.{
  String, Bool, Bool-cases, true, false, not, ◌&&◌, ◌≡◌, ap, ◌↔◌, ◌⊎◌, inl, inr, List, Dict, lookup,
  arith, ℤ, pos, ◌<ℤ◌, length, index, atoi, ◌≢◌, some, [], ◌∷◌, ◌==◌, if◌then◌else◌,
}
use appuio_cloud_agent.Kube.{
  ok, err, is_not_found, Result, User, Namespace, ConfigMap, ZoneUsageProfile, Error, Request,
  Response, is_allowed, UserInfo, Unstructured, ClusterRoleBinding,
}
use appuio_cloud_agent.Config.{Config, config_from_file}
use appuio_cloud_agent.Main.Privileged.{IsPrivileged, skipped-cases, psk-IsPrivileged_iff}
use appuio_cloud_agent.Webhooks.Quota
use appuio_cloud_agent.Webhooks.Quota.{NamespaceQuotaValidator, label_value}
use appuio_cloud_agent.Webhooks.Quota.Laws.{handle-IsBelowLimit_iff}
use appuio_cloud_agent.Main.Flags.{Flags}
use appuio_cloud_agent.Main.Environment.{Libraries, Manager, Environment}
use appuio_cloud_agent.Main.Run.{running}
use appuio_cloud_agent.Main.Program.{Agent}
use appuio_cloud_agent.Main.Register.{register_ratio_controller}
use appuio_cloud_agent.Main.Admission.{
  namespace_quota_validator, register_node_selector_validation_webhooks, register_webhooks,
}
use appuio_cloud_agent.Main.Setup.{current_user, main}
use appuio_cloud_agent.Main.Skipped.{quota_skipped}
use appuio_cloud_agent.Main.Serve.{answer, answered, serve, main-registered}

-- No usage profile and no legacy quota limits the number of namespaces.
abbrev pub AreUnlimited : Flags → Type 0
AreUnlimited f = (f.disable_usage_profiles ≡ true) × (f.legacy_namespace_quota_enabled ≡ false)

and-not_iff : (a b : Bool) → ((a && not b) ≡ true) ↔ ((a ≡ true) × (b ≡ false))
and-not_iff a b = ground arith

module _ {S X L : Type 0} (lib : Libraries S) (env : Environment S lib.decimal.D X L)
    (mgr : Manager lib.decimal.D) where
  abbrev Conf : Type 0
  Conf = Config S lib.decimal.D X L

  -- The label of a namespace object, empty where it is missing.
  abbrev label : Conf → Unstructured → Result String
  label conf raw =
      if raw.kind == "Namespace"
      then label_value (raw.nested_string ("metadata" ∷ "labels" ∷ conf.organization_label ∷ []))
      else ok ""

  -- The request is for the organization: by the label of the namespace object, or else by the default
  -- of the user.
  abbrev pub IsFor : Conf → Request → Unstructured → String → Type 0
  IsFor conf req raw org =
      ((label conf raw ≡ ok org) × (org ≢ ""))
      ⊎ ((label conf raw ≡ ok "")
          × ((user : User) × (mgr.client.get_user req.user_info.username ≡ ok user)
              × (org ≢ "")
              × (index conf.user_default_organization_annotation user.annotations ≡ org)))

  -- What the flags and the configuration set as the limit of every organization: the legacy quota if
  -- its flag is set, even if a profile is selected, and otherwise the number of the selected profile.
  abbrev pub IsBase : Flags → Conf → ℤ → Type 0
  IsBase f conf base =
      ((f.legacy_namespace_quota_enabled ≡ true) × (base ≡ conf.legacy_namespace_quota))
      ⊎ ((f.legacy_namespace_quota_enabled ≡ false)
          × (f.usage_profile ≢ "")
          × ((p : ZoneUsageProfile) × (mgr.client.get_zone_usage_profile f.usage_profile ≡ ok p)
              × (base ≡ p.namespace_count)))

  abbrev override_of : Conf → String → Result ConfigMap
  override_of conf org =
      mgr.client.get_config_map (str_append "override-" org) conf.quota_override_namespace

  -- The limit of the organization, which an override may set.
  abbrev pub IsLimit : Conf → String → ℤ → ℤ → Type 0
  IsLimit conf org base limit =
      ((cm : ConfigMap) × (override_of conf org ≡ ok cm)
        × (((index "namespaceQuota" cm.entries ≡ "") × (limit ≡ base))
            ⊎ ((index "namespaceQuota" cm.entries ≢ "")
                × (atoi (index "namespaceQuota" cm.entries) ≡ some limit))))
      ⊎ ((e : Error) × (override_of conf org ≡ err e) × (is_not_found e ≡ true) × (limit ≡ base))

  abbrev pub HasRoom : Flags → Conf → String → Type 0
  HasRoom f conf org =
      (base limit : ℤ) × (nss : List Namespace) × IsBase f conf base
      × IsLimit conf org base limit
      × (mgr.client.list_namespaces conf.organization_label org ≡ ok nss)
      × (pos (length nss) <ℤ limit)

  -- What has to hold of the requester, the organization and its namespaces.
  abbrev pub MayCreate :
      Flags → Conf → UserInfo → Request → Unstructured → List ClusterRoleBinding → Type 0
  MayCreate f conf user req raw crbs =
      IsPrivileged lib.match conf user.username req.user_info crbs
      ⊎ ((org : String) × IsFor conf req raw org × (AreUnlimited f ⊎ HasRoom f conf org))

  handle-MayCreate_iff :
      (f : Flags) (conf : Conf) (user : UserInfo) (req : Request) (raw : Unstructured)
      (crbs : List ClusterRoleBinding)
      → mgr.client.list_cluster_role_bindings ≡ ok crbs
      → mgr.unstructured.decode req ≡ ok raw
      → (is_allowed (Quota.handle (namespace_quota_validator lib env mgr f conf user.username) req)
          ≡ true)
        ↔ MayCreate f conf user req raw crbs
  handle-MayCreate_iff f conf user req raw crbs listed decoded =
      let v = namespace_quota_validator lib env mgr f conf user.username in
      let skip = psk-IsPrivileged_iff lib env mgr conf user.username req crbs listed in
      let skips = and-not_iff f.disable_usage_profiles f.legacy_namespace_quota_enabled in
      elim (skipped-cases (v.skipper req) skip.1) [
        | inl yes_ ↦ (λ h. inl (skip.0.0 yes_), λ h. ap is_allowed (quota_skipped v req yes_))
        | inr no_ ↦
            (let limited = handle-IsBelowLimit_iff v req raw no_ decoded in
              (
                λ h.
                    (let (org, named, fits) = limited.0 h in
                      inr (
                        org,
                        named,
                        elim fits [ inl free ↦ inl (skips.0 free) | inr (_, below) ↦ inr below ],
                      )),
                λ may. elim may [
                  | inl privileged ↦ absurd (let yes_ = skip.0.1 privileged in cc)
                  | inr (org, named, fits) ↦ limited.1 (
                    org,
                    named,
                    elim fits [
                      | inl free ↦ inl (skips.1 free)
                      | inr below ↦ elim (Bool-cases v.skip_validate_quota) [
                        | inl free ↦ inl free
                        | inr bound ↦ inr (bound, below)
                      ]
                    ],
                  )
                ],
              ))
      ]

  -- Once the agent runs, with its configuration and its own user as they were read, when the cluster
  -- role bindings can be listed and the object can be decoded: the webhook for quotas answers a request,
  -- and admits it exactly when the requester is privileged, the agent itself included, or the request
  -- has an organization which is unlimited by the flags or has fewer namespaces than its limit.
  pub serve-MayCreate_iff :
      (f : Flags) (a : Agent lib env mgr) (conf : Conf) (warnings : List String) (user : UserInfo)
      (req : Request) (raw : Unstructured) (crbs : List ClusterRoleBinding)
      → main lib env mgr f ≡ running a
      → config_from_file env.read_file env.unmarshal env.no_selector f.config_file
        ≡ ok (conf, warnings)
      → current_user lib env mgr ≡ running user
      → mgr.client.list_cluster_role_bindings ≡ ok crbs
      → mgr.unstructured.decode req ≡ ok raw
      → (r : Response) × (serve lib env mgr a "/validate-namespace-quota" req ≡ answer r)
        × ((is_allowed r ≡ true) ↔ MayCreate f conf user req raw crbs)
  unfolding register_ratio_controller register_node_selector_validation_webhooks register_webhooks
  serve-MayCreate_iff f a conf warnings user req raw crbs h got known listed decoded = (
    Quota.handle (namespace_quota_validator lib env mgr f conf user.username) req,
    ap (λ (hs : Dict _). answered (lookup "/validate-namespace-quota" hs) req)
        (main-registered lib env mgr f a conf warnings user h got known),
    handle-MayCreate_iff f conf user req raw crbs listed decoded,
  )
