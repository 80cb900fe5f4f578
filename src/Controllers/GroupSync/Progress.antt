-- ===== src/Controllers/GroupSync/Progress.antt =====
-- controllers/groupsync_controller.go: a reconciliation succeeds where the calls do.
use appuio_cloud_agent.Base.{
  String, Bool, Bool-cases, if_then, true, false, ◌≡◌, refl, ap, ◌∙◌, ◌⊎◌, inl, inr, List, [],
  Option, none,
}
use appuio_cloud_agent.Kube.{ok, is_not_found, Error, Works}
use appuio_cloud_agent.Controllers.GroupSync.{
  GroupSyncReconciler, Upstream, upstream_key, users_of, update_finalizers, after_delete, after_put,
}
use appuio_cloud_agent.Controllers.GroupSync.Laws.{
  KeepsUpstream, W, run, finalizer, IsCopied, IsCleared, deleted, written, run-deleting,
  run-present, reconcile-IsCopied,
}

module _ (r : GroupSyncReconciler) (keeps : KeepsUpstream r.upstreams.kept)
    (groups_work : Works r.groups) (upstreams_work : Works r.upstreams) where
  open r use {groups, upstreams, fin}

  update_finalizers_works :
      (name : String) (u : Upstream) (c : List String × Bool) (w : W r keeps)
      → (update_finalizers r (upstream_key name) u c w).1 ≡ none
  update_finalizers_works name u (fs, false) w = refl
  update_finalizers_works name u (fs, true) w =
      upstreams_work.update_works (upstream_key name) (record u { finalizers = fs }) w.foreign

  after_delete_works :
      (name : String) (u : Upstream) (w : W r keeps)
      → (after_delete r
          (upstream_key name)
          u
          (deleted r keeps name w)
          (groups.delete name w.local).1).1
        ≡ none
  after_delete_works name u w =
      let removed = fin.remove (finalizer r keeps) u.finalizers in
      elim (groups_work.delete_works name w.local) [
        | inl fine ↦
            ap (λ e. (after_delete r (upstream_key name) u (deleted r keeps name w) e).1) fine
            ∙ update_finalizers_works name u removed (deleted r keeps name w)
        | inr (f, failed, missing) ↦
            ap (λ e. (after_delete r (upstream_key name) u (deleted r keeps name w) e).1) failed
            ∙ ap (λ (x : W r keeps × Option Error). x.1) (if_then (is_not_found f) _ _ missing)
            ∙ update_finalizers_works name u removed (deleted r keeps name w)
      ]

  after_put_works :
      (name : String) (u : Upstream) (w : W r keeps)
      → (after_put r
          (upstream_key name)
          u
          (written r keeps name u w)
          (groups.create_or_update name [] (users_of r u) w.local).1).1
        ≡ none
  after_put_works name u w =
      ap (λ e. (after_put r (upstream_key name) u (written r keeps name u w) e).1)
        (groups_work.create_or_update_works name [] (users_of r u) w.local _ refl)
      ∙ update_finalizers_works name u (fin.add (finalizer r keeps) u.finalizers)
          (written r keeps name u w)

  -- Where no call fails, but to delete a group that is missing, a reconciliation of a group whose
  -- object upstream can be read returns no error and synchronises the group: it is gone if that object
  -- is being deleted, and else lists exactly the members, the object upstream carrying the finalizer.
  pub reconcile-IsCopied_always :
      (name : String) (w : W r keeps) (u : Upstream)
      → upstreams.get (upstream_key name) w.foreign ≡ ok u
      → ((run r keeps name w).1 ≡ none)
        × (((u.deleting ≡ true) × IsCleared r keeps name (run r keeps name w).0)
            ⊎ ((u.deleting ≡ false) × IsCopied r keeps name u (run r keeps name w).0))
  reconcile-IsCopied_always name w u read =
      let fine : (run r keeps name w).1 ≡ none = elim (Bool-cases u.deleting) [
        | inl deleting ↦
            ap (λ x. x.1) (run-deleting r keeps name w u read deleting)
            ∙ after_delete_works name u w
        | inr present ↦
            ap (λ x. x.1) (run-present r keeps name w u read present) ∙ after_put_works name u w
      ] in
      (fine, reconcile-IsCopied r keeps name w u read fine)
