-- ===== src/Main/Privileged.antt =====
-- main.go and skipper/: who is privileged, for the configuration and the agent's own name.
use appuio_cloud_agent.Base.{
  String, Bool, true, false, ◌≡◌, ap, ◌↔◌, ◌⊎◌, inl, inr, List, [], ◌∷◌, Option, none, Any,
  Any-append_iff,
}
use appuio_cloud_agent.Kube.{ok, Error, Request, UserInfo, ClusterRoleBinding}
use appuio_cloud_agent.Config.{Config}
use appuio_cloud_agent.Skipper.Laws.{Binds, IsNamed, HasRole, privileged_skip_iff}
use appuio_cloud_agent.Main.Environment.{Libraries, Manager, Environment}
use appuio_cloud_agent.Main.Admission.{privileged_user_skipper, psk}

-- The user is the agent itself, or is named by the configuration: by a user name, by a group, or by a
-- cluster role that is bound to the user.
abbrev pub IsPrivileged :
    {S D X L : Type 0}
    → (String → String → Bool)
    → Config S D X L
    → String
    → UserInfo
    → List ClusterRoleBinding
    → Type 0
IsPrivileged match conf self u crbs =
    (match self u.username ≡ true)
    ⊎ (Any (λ p. match p u.username ≡ true) conf.privileged_users
        ⊎ (Any (λ p. Any (λ g. match p g ≡ true) u.groups) conf.privileged_groups
            ⊎ Any (λ p. Any (λ b. Binds b u × (match p b.role_name ≡ true)) crbs)
                conf.privileged_cluster_roles))

pub skipped-cases :
    (r : Bool × Option Error) → r.1 ≡ none → (r ≡ (true, none)) ⊎ (r ≡ (false, none))
skipped-cases (true, e) h = inl (ap (λ z. (true, z)) h)
skipped-cases (false, e) h = inr (ap (λ z. (false, z)) h)

module _ {S X L : Type 0} (lib : Libraries S) (env : Environment S lib.decimal.D X L)
    (mgr : Manager lib.decimal.D) where
  abbrev Conf : Type 0
  Conf = Config S lib.decimal.D X L

  IsNamed-IsPrivileged_iff :
      (conf : Conf) (self : String) (u : UserInfo) (crbs : List ClusterRoleBinding)
      → (IsNamed lib.match (privileged_user_skipper lib env mgr conf self) u
          ⊎ HasRole lib.match (privileged_user_skipper lib env mgr conf self) u crbs)
        ↔ IsPrivileged lib.match conf self u crbs
  IsNamed-IsPrivileged_iff conf self u crbs =
      let (split, join) =
        Any-append_iff (λ p. lib.match p u.username ≡ true) conf.privileged_users (self ∷ []) in
      (
        λ h. elim h [
          | inr role ↦ inr (inr (inr role))
          | inl named ↦ elim named [
            | inr group ↦ inr (inr (inl group))
            | inl user ↦ elim (split user) [
              | inl listed ↦ inr (inl listed)
              | inr own ↦ elim own [ inl itself ↦ inl itself | inr nothing ↦ absurd nothing ]
            ]
          ]
        ],
        λ h. elim h [
          | inl itself ↦ inl (inl (join (inr (inl itself))))
          | inr others ↦ elim others [
            | inl listed ↦ inl (inl (join (inl listed)))
            | inr rest ↦ elim rest [ inl group ↦ inl (inr group) | inr role ↦ inr role ]
          ]
        ],
      )

  -- The skipper skips the privileged users.
  pub psk-IsPrivileged_iff :
      (conf : Conf) (self : String) (req : Request) (crbs : List ClusterRoleBinding)
      → mgr.client.list_cluster_role_bindings ≡ ok crbs
      → ((psk lib env mgr conf self req ≡ (true, none))
          ↔ IsPrivileged lib.match conf self req.user_info crbs)
        × ((psk lib env mgr conf self req).1 ≡ none)
  psk-IsPrivileged_iff conf self req crbs listed =
      let (skips, fine) =
        privileged_skip_iff lib.match (privileged_user_skipper lib env mgr conf self) req crbs
          listed in
      let named = IsNamed-IsPrivileged_iff conf self req.user_info crbs in
      ((λ h. named.0 (skips.0 h), λ h. skips.1 (named.1 h)), fine)
