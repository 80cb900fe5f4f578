-- ===== src/Main/Entitled.antt =====
-- main.go and webhooks/: whom the running agent lets create a namespace, by the organization.

use appuio_cloud_agent.Base.{
  String, Bool, true, false, ◌≡◌, ◌≢◌, refl, ap, ◌↔◌, ◌⊎◌, inl, inr, List, none, Dict, lookup,
  starts_with, arith, In, index, ◌==◌, if◌then◌else◌,
}
use appuio_cloud_agent.Kube.{
  ok, User, Group, Request, Response, is_allowed, UserInfo, Unstructured, ClusterRoleBinding,
}
use appuio_cloud_agent.Config.{Config, config_from_file}
use appuio_cloud_agent.Skipper.Skip.{static_skip, multi_skip}
use appuio_cloud_agent.Webhooks.Organization
use appuio_cloud_agent.Webhooks.Organization.Laws.{handle-namespace_iff}
use appuio_cloud_agent.Main.Flags.{Flags}
use appuio_cloud_agent.Main.Environment.{Libraries, Manager, Environment}
use appuio_cloud_agent.Main.Run.{running}
use appuio_cloud_agent.Main.Program.{Agent}
use appuio_cloud_agent.Main.Register.{register_ratio_controller}
use appuio_cloud_agent.Main.Admission.{
  psk, enabled_or_psk, organization_mutator, register_node_selector_validation_webhooks,
  register_webhooks,
}
use appuio_cloud_agent.Main.Setup.{current_user, main}
use appuio_cloud_agent.Main.Skipped.{organization_skipped}
use appuio_cloud_agent.Main.Serve.{answer, answered, serve, main-registered}
use appuio_cloud_agent.Main.Privileged.{IsPrivileged, skipped-cases, psk-IsPrivileged_iff}

module _ {S X L : Type 0} (lib : Libraries S) (env : Environment S lib.decimal.D X L)
    (mgr : Manager lib.decimal.D) where
  abbrev Conf : Type 0
  Conf = Config S lib.decimal.D X L

  -- An enabled webhook skips what the skipper for privileged users skips.
  enabled_or_psk-enabled :
      (enabled : Bool) (conf : Conf) (self : String) (req : Request) (skip : Bool)
      → enabled ≡ true
      → psk lib env mgr conf self req ≡ (skip, none)
      → enabled_or_psk lib env mgr enabled conf self req ≡ (skip, none)
  unfolding multi_skip static_skip
  enabled_or_psk-enabled false conf self req skip on h = absurd (ground arith)
  enabled_or_psk-enabled true conf self req true on h = rw h refl
  enabled_or_psk-enabled true conf self req false on h = rw h refl

  -- The organization of a request: the label of the object, or else the default of the user.
  abbrev organization : Conf → Unstructured → User → String
  organization conf raw user =
      if index conf.organization_label raw.labels == ""
      then index conf.user_default_organization_annotation user.annotations
      else index conf.organization_label raw.labels

  -- The user is known, and in the group of the organization of the request.
  abbrev pub IsEntitled : Conf → String → Unstructured → Type 0
  IsEntitled conf name raw =
      (user : User) × (mgr.client.get_user name ≡ ok user)
      × (organization conf raw user ≢ "")
      × ((g : Group) × (mgr.client.get_group (organization conf raw user) ≡ ok g) × In name g.users)

  handle-IsEntitled_iff :
      (f : Flags) (conf : Conf) (user : UserInfo) (req : Request) (raw : Unstructured)
      (crbs : List ClusterRoleBinding)
      → f.namespace_project_organization_mutator_enabled ≡ true
      → req.kind ≢ "Project"
      → starts_with req.user_info.username "system:serviceaccount:" ≡ false
      → mgr.client.list_cluster_role_bindings ≡ ok crbs
      → mgr.unstructured.decode req ≡ ok raw
      → (is_allowed
            (Organization.handle (organization_mutator lib env mgr f conf user.username) req)
          ≡ true)
        ↔ (IsPrivileged lib.match conf user.username req.user_info crbs
            ⊎ IsEntitled conf req.user_info.username raw)
  handle-IsEntitled_iff f conf user req raw crbs on other person listed decoded =
      let m = organization_mutator lib env mgr f conf user.username in
      let skip = psk-IsPrivileged_iff lib env mgr conf user.username req crbs listed in
      let multi = λ (b : Bool) (h : psk lib env mgr conf user.username req ≡ (b, none)).
        enabled_or_psk-enabled f.namespace_project_organization_mutator_enabled conf user.username
          req b on h in
      elim (skipped-cases (psk lib env mgr conf user.username req) skip.1) [
        | inl yes_ ↦ (
          λ h. inl (skip.0.0 yes_),
          λ h. elim (organization_skipped m req (multi true yes_)) [
            | inl project ↦ absurd (other project)
            | inr skips ↦ ap is_allowed skips
          ],
        )
        | inr no_ ↦
            (let entitled =
                (handle-namespace_iff m req raw other (multi false no_) decoded).1 person in
              (
                λ h. inr (entitled.0 h),
                λ may. elim may [
                  | inl privileged ↦ absurd (let yes_ = skip.0.1 privileged in cc)
                  | inr known ↦ entitled.1 known
                ],
              ))
      ]

  -- Once the agent runs with the flag of the webhook for organizations, with its configuration and its
  -- own user as they were read, when the cluster role bindings can be listed and the object can be
  -- decoded: the webhook answers a request of a user other than a service account, which is not for a
  -- project, and admits it exactly when the requester is privileged, the agent itself included, or is
  -- known and a member of the organization that the request leads to.
  pub serve-IsEntitled_iff :
      (f : Flags) (a : Agent lib env mgr) (conf : Conf) (warnings : List String) (user : UserInfo)
      (req : Request) (raw : Unstructured) (crbs : List ClusterRoleBinding)
      → main lib env mgr f ≡ running a
      → config_from_file env.read_file env.unmarshal env.no_selector f.config_file
        ≡ ok (conf, warnings)
      → current_user lib env mgr ≡ running user
      → f.namespace_project_organization_mutator_enabled ≡ true
      → req.kind ≢ "Project"
      → starts_with req.user_info.username "system:serviceaccount:" ≡ false
      → mgr.client.list_cluster_role_bindings ≡ ok crbs
      → mgr.unstructured.decode req ≡ ok raw
      → (r : Response) × (serve lib env mgr a "/mutate-namespace-project-organization" req
          ≡ answer r)
        × ((is_allowed r ≡ true) ↔ (
            IsPrivileged lib.match conf user.username req.user_info crbs
            ⊎ IsEntitled conf req.user_info.username raw))
  unfolding register_ratio_controller register_node_selector_validation_webhooks register_webhooks
  serve-IsEntitled_iff f a conf warnings user req raw crbs h got known on other person listed
        decoded =
      (
        Organization.handle (organization_mutator lib env mgr f conf user.username) req,
        ap (λ (hs : Dict _). answered (lookup "/mutate-namespace-project-organization" hs) req)
            (main-registered lib env mgr f a conf warnings user h got known),
        handle-IsEntitled_iff f conf user req raw crbs on other person listed decoded,
      )
