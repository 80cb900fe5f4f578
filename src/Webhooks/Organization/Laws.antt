-- ===== src/Webhooks/Organization/Laws.antt =====
-- The whole handler.

use appuio_cloud_agent.Base.{
  String, Bool, true, false, ◌≡◌, refl, ◌≢◌, ◌↔◌, ◌⊎◌, inl, inr, arith, index, none, ◌==◌, eq_iff,
  Bool-cases, String-cases, starts_with,
}
use appuio_cloud_agent.Kube.{ok, is_allowed, Request, Unstructured, User}
use appuio_cloud_agent.Skipper.UserInfo.{sa_prefix}
use appuio_cloud_agent.Webhooks.Organization.{
  NamespaceProjectOrganizationMutator, openshift_project_requester_annotation, handle_project,
  handle_namespace, handle_user_requested, handle_service_account_namespace, handle,
}
use appuio_cloud_agent.Webhooks.Organization.Membership.{
  IsMember, chosen, handle_user_requested_iff,
}

module _ (m : NamespaceProjectOrganizationMutator) where
  -- The user is known and a member of the organization that the request leads to.
  abbrev pub IsEntitled : String → Unstructured → Type 0
  IsEntitled user_name raw =
      (user : User) × (m.client.get_user user_name ≡ ok user)
      × (chosen m user_name raw user ≢ "")
      × IsMember m user_name raw (chosen m user_name raw user)

  abbrev requester : Unstructured → String
  requester raw = index openshift_project_requester_annotation raw.annotations

  handle_project_iff :
      (raw : Unstructured)
      → (is_allowed (handle_project m raw) ≡ true) ↔ (
          (requester raw ≡ "")
          ⊎ ((starts_with (requester raw) sa_prefix ≡ false) × IsEntitled (requester raw) raw))
  unfolding handle_project
  handle_project_iff raw =
      let (to, from) = handle_user_requested_iff m (requester raw) raw in
      elim (String-cases (requester raw) "") [
        | inl unset ↦ (λ h. inl unset, λ h. simp unset refl)
        | inr set ↦ rw set (elim (Bool-cases (starts_with (requester raw) sa_prefix)) [
          | inl account ↦ rw account (
            λ h. absurd (ground arith),
            λ h. elim h [
              | inl unset ↦ absurd (ground (arith, (eq_iff (requester raw) "").1 unset))
              | inr (no_account, _) ↦ absurd (ground arith)
            ],
          )
          | inr user ↦ rw user (
            λ h. inr (refl, to h),
            λ h. elim h [
              | inl unset ↦ absurd (ground (arith, (eq_iff (requester raw) "").1 unset))
              | inr (_, entitled) ↦ from entitled
            ],
          )
        ])
      ]

  -- A request for a project whose object can be decoded is never skipped: whether or not the skipper
  -- would skip it, as long as it returns no error, it is admitted exactly when the object names no
  -- requester, or when the requester is no service account and is entitled to the organization.
  pub handle-project_iff :
      (req : Request) (skip : Bool) (raw : Unstructured)
      → req.kind ≡ "Project"
      → m.skipper req ≡ (skip, none)
      → m.decoder.decode req ≡ ok raw
      → (is_allowed (handle m req) ≡ true) ↔ (
          (requester raw ≡ "")
          ⊎ ((starts_with (requester raw) sa_prefix ≡ false) × IsEntitled (requester raw) raw))
  unfolding handle
  handle-project_iff req skip raw project answered decoded =
      let k = (eq_iff req.kind "Project").1 project in
      let e : handle m req ≡ handle_project m raw = ground arith in rw e (handle_project_iff raw)

  -- A request for a namespace that the skipper lets be checked, and whose object can be decoded, is
  -- handled as the service account's when the name of its user is one, and otherwise as the user's; the
  -- user's is admitted exactly when the user is entitled to the organization.
  pub handle-namespace_iff :
      (req : Request) (raw : Unstructured)
      → req.kind ≢ "Project"
      → m.skipper req ≡ (false, none)
      → m.decoder.decode req ≡ ok raw
      → (starts_with req.user_info.username sa_prefix ≡ true
          → handle m req ≡ handle_service_account_namespace m req raw)
        × (starts_with req.user_info.username sa_prefix ≡ false
            → (is_allowed (handle m req) ≡ true) ↔ IsEntitled req.user_info.username raw)
  unfolding handle handle_namespace
  handle-namespace_iff req raw other checked decoded =
      let k : (req.kind == "Project") ≡ false = ground (arith, eq_iff req.kind "Project") in
      (
        λ account. ground arith,
        λ user.
            let e : handle m req ≡ handle_user_requested m req.user_info.username raw =
              ground arith in
            rw e (handle_user_requested_iff m req.user_info.username raw),
      )
