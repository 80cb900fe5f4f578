-- ===== src/Access.antt =====
-- The groups that controllers/groupsync_controller.go writes decide whom
-- webhooks/namespace_project_organization_mutator.go admits.
mod Tests
use mathlib.Core.Path.{subst}
use appuio_cloud_agent.Base.{
  String, Bool, true, false, ◌≡◌, ◌≢◌, refl, sym, ap, ◌∙◌, ◌↔◌, inl, inr, List, In, none, some,
  arith,
}
use appuio_cloud_agent.Kube.{Result, ok, is_allowed, Unstructured, User, Group}
use appuio_cloud_agent.Webhooks.Organization.{
  NamespaceProjectOrganizationMutator, handle_user_requested,
}
use appuio_cloud_agent.Webhooks.Organization.Membership.{
  chosen, IsMember, handle_user_requested_iff,
}
use appuio_cloud_agent.Controllers.GroupSync.{GroupSyncReconciler, Upstream, upstream_key}
use appuio_cloud_agent.Controllers.GroupSync.Laws.{
  KeepsUpstream, W, run, group_in, IsCopied, IsCleared, reconcile-IsCopied,
}

module _ (r : GroupSyncReconciler) (keeps : KeepsUpstream r.upstreams.kept)
    (m : NamespaceProjectOrganizationMutator) where
  -- The webhook reads the group from the cluster that the controller writes.
  abbrev pub Reads : String → W r keeps → Type 0
  Reads org w =
      (g : Group) → (m.client.get_group org ≡ ok g) ↔ (group_in r keeps org w ≡ some g.users)

  -- After a reconciliation without an error, the members of a group are those upstream, and none if
  -- the object upstream is being deleted.
  reconcile-IsMember_iff :
      (org x : String) (raw : Unstructured) (w : W r keeps) (u : Upstream)
      → r.upstreams.get (upstream_key org) w.foreign ≡ ok u
      → (run r keeps org w).1 ≡ none
      → Reads org (run r keeps org w).0
      → IsMember m x raw org ↔ ((u.deleting ≡ false) × In x u.members)
  reconcile-IsMember_iff org x raw w u got fine reads =
      elim (reconcile-IsCopied r keeps org w u got fine) [
        | inl (deleting, (gone, cleared)) ↦ (
          λ (g, found, member).
              let there = (reads g).0 found in
              let never : none ≡ some g.users = sym gone ∙ there in absurd (ground arith),
          λ (present, member). absurd (ground arith),
        )
        | inr (present, (users, there, same, finalized)) ↦ (
          λ (g, found, member).
              let equal : g.users ≡ users =
                (let e : some g.users ≡ some users = sym ((reads g).0 found) ∙ there in
                  ground arith) in
              (present, (same x).0 (subst (In x) equal member)),
          λ (_, member). (
            record { users = users },
            (reads (record { users = users })).1 there,
            (same x).1 member,
          ),
        )
      ]

  -- After a reconciliation without an error of an organization whose object upstream can be read,
  -- a known user, whose request is for that organization, is admitted exactly when the object
  -- upstream is not being deleted and lists the user, provided that the webhook reads the group
  -- that the controller has left.
  pub handle_user_requested-reconcile_iff :
      (org x : String) (raw : Unstructured) (user : User) (w : W r keeps) (u : Upstream)
      → r.upstreams.get (upstream_key org) w.foreign ≡ ok u
      → (run r keeps org w).1 ≡ none
      → Reads org (run r keeps org w).0
      → m.client.get_user x ≡ ok user
      → chosen m x raw user ≡ org
      → org ≢ ""
      → (is_allowed (handle_user_requested m x raw) ≡ true)
        ↔ ((u.deleting ≡ false) × In x u.members)
  handle_user_requested-reconcile_iff org x raw user w u got fine reads known chooses set =
      let (to, from) = handle_user_requested_iff m x raw in
      let (to_member, from_member) = reconcile-IsMember_iff org x raw w u got fine reads in
      (
        λ h.
            let (user', known', _, member) = to h in
            let same : user' ≡ user = ground arith in
            let for_org : chosen m x raw user' ≡ org = ap (chosen m x raw) same ∙ chooses in
            to_member (subst (IsMember m x raw) for_org member),
        λ h. from (
          user,
          known,
          λ e. set (sym chooses ∙ e),
          subst (IsMember m x raw) (sym chooses) (from_member h),
        ),
      )
