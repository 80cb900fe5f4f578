-- ===== src/Controllers/GroupSync/Others.antt =====
-- controllers/groupsync_controller.go: what a reconciliation leaves alone.
use mathlib.Core.Path.{subst, sym}
use appuio_cloud_agent.Base.{
  String, Bool, Bool-cases, true, false, ◌≡◌, ◌≢◌, refl, ◌∙◌, inl, inr, List, [], Option, none,
  some,
}
use appuio_cloud_agent.Kube.{Error, is_not_found, Result-cases}
use appuio_cloud_agent.Controllers.GroupSync.{
  GroupSyncReconciler, Upstream, upstream_key, after_delete, users_of, after_put, reconcile,
}
use appuio_cloud_agent.Controllers.GroupSync.Key.{upstream_key_ne}
use appuio_cloud_agent.Controllers.GroupSync.Laws.{
  KeepsUpstream, W, run, finalizer, group_in, upstream_in, put_finalizers, deleted, written,
  run-deleting, run-present,
}

module _ (r : GroupSyncReconciler) (keeps : KeepsUpstream r.upstreams.kept) (i j : String)
    (h : i ≢ j) where
  open r use {groups, upstreams, fin}

  -- The group and its object upstream are as they were.
  abbrev pub IsUntouched : W r keeps → W r keeps → Type 0
  IsUntouched w w' =
      (group_in r keeps j w' ≡ group_in r keeps j w)
      × (upstream_in r keeps j w' ≡ upstream_in r keeps j w)

  put_finalizers-IsUntouched :
      (u : Upstream) (c : List String × Bool) (w w' : W r keeps)
      → IsUntouched w w'
      → IsUntouched w (put_finalizers r keeps i u c w').0
  put_finalizers-IsUntouched u (fs, false) w w' same = same
  put_finalizers-IsUntouched u (fs, true) w w' (groups_same, foreign_same) = (
    groups_same,
    upstreams.update-find_ne (upstream_key i) (upstream_key j) _ w'.foreign (upstream_key_ne i j h)
        ∙ foreign_same,
  )

  after_delete-IsUntouched :
      (u : Upstream) (w : W r keeps) (e : Option Error)
      → IsUntouched w (after_delete r (upstream_key i) u (deleted r keeps i w) e).0
  after_delete-IsUntouched u w none =
      put_finalizers-IsUntouched u (fin.remove (finalizer r keeps) u.finalizers) w
        (deleted r keeps i w) (groups.delete-find_ne i j w.local h, refl)
  after_delete-IsUntouched u w (some f) = elim (Bool-cases (is_not_found f)) [
    | inl missing ↦ rw missing (
        put_finalizers-IsUntouched u (fin.remove (finalizer r keeps) u.finalizers) w
          (deleted r keeps i w) (groups.delete-find_ne i j w.local h, refl))
    | inr other ↦ rw other (groups.delete-find_ne i j w.local h, refl)
  ]

  after_put-IsUntouched :
      (u : Upstream) (w : W r keeps) (e : Option Error)
      → IsUntouched w (after_put r (upstream_key i) u (written r keeps i u w) e).0
  after_put-IsUntouched u w (some f) =
      (groups.create_or_update-find_ne i j _ (users_of r u) w.local h, refl)
  after_put-IsUntouched u w none =
      put_finalizers-IsUntouched u (fin.add (finalizer r keeps) u.finalizers) w
        (written r keeps i u w)
        (groups.create_or_update-find_ne i j _ (users_of r u) w.local h, refl)

  -- A reconciliation of one group leaves every other group and its object upstream alone, also if it
  -- fails.
  pub reconcile-IsUntouched : (w : W r keeps) → IsUntouched w (run r keeps i w).0
  unfolding reconcile
  reconcile-IsUntouched w = elim (Result-cases (upstreams.get (upstream_key i) w.foreign)) [
    | inr (e, failed) ↦ rw failed (refl, refl)
    | inl (u, read) ↦ elim (Bool-cases u.deleting) [
      | inl deleting ↦
          subst (λ x. IsUntouched w x.0) (sym (run-deleting r keeps i w u read deleting))
            (after_delete-IsUntouched u w (groups.delete i w.local).1)
      | inr present ↦
          subst (λ x. IsUntouched w x.0) (sym (run-present r keeps i w u read present))
            (after_put-IsUntouched u w (groups.create_or_update i [] (users_of r u) w.local).1)
    ]
  ]
