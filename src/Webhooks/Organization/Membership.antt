-- ===== src/Webhooks/Organization/Membership.antt =====
-- Requests of OpenShift users: `handleUserRequested`.
use mathlib.Core.Path.{subst, sym}
use appuio_cloud_agent.Base.{
  String, Bool, true, false, ◌≡◌, refl, ◌≢◌, ◌↔◌, inl, inr, [], ◌∷◌, arith, index, contains_iff, In,
  ◌==◌, eq_iff, Bool-cases, if◌then◌else◌,
}
use appuio_cloud_agent.Kube.{ok, Result-cases, is_allowed, patches, Unstructured, User, Group}
use appuio_cloud_agent.Webhooks.Guard.{else_of_allowed}
use appuio_cloud_agent.Webhooks.Pointer.{apply_patch}
use appuio_cloud_agent.Webhooks.Organization.{
  NamespaceProjectOrganizationMutator, org_label_patch, check_membership, choose_organization,
  handle_user_requested,
}
use appuio_cloud_agent.Webhooks.Organization.Patch.{
  IsConsistent, index_of, labels_field, patched_labels, org_label_patch-apply, label_after,
}

module _ (m : NamespaceProjectOrganizationMutator) (user_name : String) (raw : Unstructured) where
  -- There is a group named after the organization, and the user is in it.
  abbrev pub IsMember : String → Type 0
  IsMember org = (g : Group) × (m.client.get_group org ≡ ok g) × In user_name g.users

  -- The organization of the request: the object's label, or else the user's default.
  abbrev pub chosen : User → String
  chosen user =
      if index m.organization_label raw.labels == ""
      then index m.user_default_organization_annotation user.annotations
      else index m.organization_label raw.labels

  check_membership_iff :
      (org : String) (added : Bool)
      → (is_allowed (check_membership m user_name raw org added) ≡ true) ↔ IsMember org
  check_membership_iff org added = elim (Result-cases (m.client.get_group org)) [
    | inl (g, got) ↦ (
      λ h. (g, got, ground (arith, contains_iff g.users user_name)),
      λ (g', got', member). ground (arith, contains_iff g.users user_name),
    )
    | inr (e, failed) ↦ (λ h. ground arith, λ (g', got', member). ground arith)
  ]

  check_membership-patches :
      (org : String) (added : Bool)
      → is_allowed (check_membership m user_name raw org added) ≡ true
      → patches (check_membership m user_name raw org added)
        ≡ (if added then org_label_patch m raw org ∷ [] else [])
  check_membership-patches org added h = elim (Result-cases (m.client.get_group org)) [
    | inl (g, got) ↦ ground arith
    | inr (e, failed) ↦ ground arith
  ]

  choose_organization_iff :
      (user : User)
      → (is_allowed (choose_organization m user_name raw user) ≡ true)
        ↔ ((chosen user ≢ "") × IsMember (chosen user))
  choose_organization_iff user =
      let (to, from) =
        check_membership_iff (chosen user) (index m.organization_label raw.labels == "") in
      elim (Bool-cases (chosen user == "")) [
        | inl unset ↦
            rw unset
              (λ h. absurd (ground arith), λ (set, member). absurd (set ((eq_iff _ _).0 unset)))
        | inr set ↦ rw set (
          λ h. (λ e. ground (arith, (eq_iff (chosen user) "").1 e), to h),
          λ (_, member). from member,
        )
      ]

  -- A user's request is admitted exactly when the user is known, an organization is set, by the
  -- label of the object or by the user's default, and the user is a member of it: listed in the
  -- group with its name.
  pub handle_user_requested_iff : (is_allowed (handle_user_requested m user_name raw) ≡ true) ↔ (
      (user : User) × (m.client.get_user user_name ≡ ok user)
      × (chosen user ≢ "")
      × IsMember (chosen user))
  unfolding handle_user_requested
  handle_user_requested_iff = elim (Result-cases (m.client.get_user user_name)) [
    | inl (user, got) ↦
        let (to, from) = choose_organization_iff user in
        rw got (
          λ h. (user, refl, (to h).0, (to h).1),
          λ (user', got', set, member).
              let same : user' ≡ user = cc in
              from (subst (λ u. (chosen u ≢ "") × IsMember (chosen u)) same (set, member)),
        )
    | inr (e, failed) ↦ (λ h. ground arith, λ (user, got, set, member). ground arith)
  ]

  check_membership-label :
      (org : String) (added : Bool)
      → (added ≡ false → index_of m.organization_label (labels_field raw) ≡ org)
      → is_allowed (check_membership m user_name raw org added) ≡ true
      → label_after m raw (check_membership m user_name raw org added) ≡ org
  unfolding patched_labels apply_patch
  check_membership-label org true labelled h =
      rw (check_membership-patches org true h) (org_label_patch-apply m raw org)
  check_membership-label org false labelled h =
      rw (check_membership-patches org false h) (labelled refl)

  choose_organization-label :
      (user : User)
      → IsConsistent raw
      → is_allowed (choose_organization m user_name raw user) ≡ true
      → label_after m raw (choose_organization m user_name raw user) ≡ chosen user
  choose_organization-label user consistent h =
      let org = chosen user in
      let added = index m.organization_label raw.labels == "" in
      let e : choose_organization m user_name raw user
          ≡ check_membership m user_name raw org added =
        else_of_allowed (org == "") _ (check_membership m user_name raw org added) refl h in
      subst (λ r. label_after m raw r ≡ org) (sym e)
        (check_membership-label org added (λ f. rw f (sym (consistent m.organization_label)))
          (subst (λ r. is_allowed r ≡ true) e h))

  -- When the labels of an object are what its accessor returns and the request of a user is
  -- admitted, the label of the object, once the patch is applied, names an organization of which
  -- the user is a member: it is not empty, and the user is listed in the group with its name.
  pub handle_user_requested-IsMember :
      IsConsistent raw
      → is_allowed (handle_user_requested m user_name raw) ≡ true
      → (label_after m raw (handle_user_requested m user_name raw) ≢ "")
        × IsMember (label_after m raw (handle_user_requested m user_name raw))
  unfolding handle_user_requested
  handle_user_requested-IsMember consistent h = elim (Result-cases (m.client.get_user user_name)) [
    | inl (user, got) ↦
        let h' : is_allowed (choose_organization m user_name raw user) ≡ true = rw got at h in
        rw got
          (rw (choose_organization-label user consistent h') ((choose_organization_iff user).0 h'))
    | inr (e, failed) ↦ absurd (ground arith)
  ]
