-- ===== src/Controllers/GroupSync/Finalizer.antt =====
-- controllers/groupsync_controller.go: how the finalizer protects a group, over one reconciliation.
use mathlib.Core.Path.{subst, sym}
use appuio_cloud_agent.Base.{
  String, Bool, Bool-cases, true, false, ◌≡◌, refl, ap, ◌∙◌, ◌⊎◌, inl, inr, List, [], Option, none,
  some, In, arith,
}
use appuio_cloud_agent.Kube.{Error, is_not_found, ok, err, Result-cases}
use appuio_cloud_agent.Controllers.GroupSync.{
  GroupSyncReconciler, Upstream, upstream_key, after_delete, users_of, after_put, reconcile,
}
use appuio_cloud_agent.Controllers.GroupSync.Laws.{
  KeepsUpstream, W, run, finalizer, group_in, upstream_in, IsFinalized, put_finalizers,
  put_finalizers-local, deleted, written, run-deleting, run-present, reconcile-IsCopied,
}

module _ (r : GroupSyncReconciler) (keeps : KeepsUpstream r.upstreams.kept) where
  open r use {groups, upstreams, fin, sorting}

  -- A group that exists is protected: the object upstream exists, and carries the finalizer.
  abbrev pub IsGuarded : String → W r keeps → Type 0
  IsGuarded name w = (group_in r keeps name w ≡ none) ⊎ IsFinalized r keeps name w

  -- A failure of this reconciliation is harmless: the object upstream cannot be read, is being
  -- deleted, or carries the finalizer already.
  abbrev pub IsCovered : String → W r keeps → Type 0
  IsCovered name w =
      ((e : Error) × (upstreams.get (upstream_key name) w.foreign ≡ err e))
      ⊎ ((u : Upstream) × (upstreams.get (upstream_key name) w.foreign ≡ ok u)
          × ((u.deleting ≡ true) ⊎ In (finalizer r keeps) u.finalizers))

  -- An object that has the finalizer keeps it while it is added, also if the update fails.
  add_finalizer_again-IsFinalized :
      (name : String) (u : Upstream) (w : W r keeps)
      → upstream_in r keeps name w ≡ some u
      → In (finalizer r keeps) u.finalizers
      → IsFinalized r keeps name
          (put_finalizers r keeps name u (fin.add (finalizer r keeps) u.finalizers) w).0
  add_finalizer_again-IsFinalized name u w held there =
      go (fin.add f u.finalizers) ((fin.In-add_iff f f u.finalizers).1 (inl refl))
    where
      f : String
      f = finalizer r keeps

      go :
          (c : List String × Bool)
          → In f c.0
          → IsFinalized r keeps name (put_finalizers r keeps name u c w).0
      go (fs, false) added = (u, held, there)
      go (fs, true) added =
          let u' : Upstream = record u { finalizers = fs } in
          elim (upstreams.update-find_or (upstream_key name) u' w.foreign) [
            | inl same ↦ (u, same ∙ held, there)
            | inr new ↦ (u', new ∙ keeps.kept_finalized u' f added, added)
          ]

  after_delete-IsGuarded :
      (name : String) (u : Upstream) (w : W r keeps) (e : Option Error)
      → IsGuarded name w
      → (groups.delete name w.local).1 ≡ e
      → IsGuarded name (after_delete r (upstream_key name) u (deleted r keeps name w) e).0
  after_delete-IsGuarded name u w none guarded is =
      inl (group_gone name u w (groups.delete-find name w.local none is (inl refl)))
    where
      group_gone :
          (name : String) (u : Upstream) (w : W r keeps)
          → groups.find name (groups.delete name w.local).0 ≡ none
          → group_in r keeps name
              (put_finalizers r keeps name u
                (fin.remove (finalizer r keeps) u.finalizers)
                (deleted r keeps name w)).0
            ≡ none
      group_gone name u w gone =
          ap (groups.find name) (put_finalizers-local r keeps name u _ (deleted r keeps name w))
          ∙ gone
  after_delete-IsGuarded name u w (some f) guarded is = elim (Bool-cases (is_not_found f)) [
    | inl missing ↦ inl (
        rw missing (
          ap (groups.find name) (
            put_finalizers-local r keeps name u (fin.remove (finalizer r keeps) u.finalizers)
              (deleted r keeps name w))
          ∙ groups.delete-find name w.local (some f) is (inr (f, refl, missing))))
    | inr other ↦ rw other (elim (groups.delete-find_or name w.local) [
      | inr gone ↦ inl gone
      | inl same ↦ elim guarded [ inl none_before ↦ inl (same ∙ none_before) | inr kept ↦ inr kept ]
    ])
  ]

  after_put-IsFinalized :
      (name : String) (u : Upstream) (w : W r keeps) (e : Option Error)
      → upstream_in r keeps name w ≡ some u
      → In (finalizer r keeps) u.finalizers
      → IsFinalized r keeps name (after_put r (upstream_key name) u (written r keeps name u w) e).0
  after_put-IsFinalized name u w (some f) held there = (u, held, there)
  after_put-IsFinalized name u w none held there =
      add_finalizer_again-IsFinalized name u (written r keeps name u w) held there

  -- A reconciliation that returns no error, or whose failure is covered, leaves its group protected.
  pub reconcile-IsGuarded :
      (name : String) (w : W r keeps)
      → IsGuarded name w
      → (((run r keeps name w).1 ≡ none) ⊎ IsCovered name w)
      → IsGuarded name (run r keeps name w).0
  unfolding reconcile
  reconcile-IsGuarded name w guarded fine =
      elim (Result-cases (upstreams.get (upstream_key name) w.foreign)) [
        | inr (e, failed) ↦ rw failed guarded
        | inl (u, read) ↦
            let held = upstreams.get-find (upstream_key name) w.foreign u read in
            elim (Bool-cases u.deleting) [
              | inl deleting ↦
                  subst (λ x. IsGuarded name x.0)
                    (sym (run-deleting r keeps name w u read deleting))
                    (after_delete-IsGuarded name u w (groups.delete name w.local).1 guarded refl)
              | inr present ↦ elim fine [
                | inl success ↦ elim (reconcile-IsCopied r keeps name w u read success) [
                  | inl (deleting, _) ↦ absurd (ground arith)
                  | inr (_, (_, _, _, finalized)) ↦ inr finalized
                ]
                | inr (inl (e, failed)) ↦ absurd (ground arith)
                | inr (inr (v, read', why)) ↦
                    let same : v ≡ u = ground arith in
                    elim why [
                      | inl deleting ↦ absurd (ground arith)
                      | inr there ↦ inr (
                          subst (λ x. IsFinalized r keeps name x.0)
                            (sym (run-present r keeps name w u read present))
                            (after_put-IsFinalized name u w _ held
                              (subst (λ x. In (finalizer r keeps) x.finalizers) same there)))
                    ]
              ]
            ]
      ]

  put_finalizers_failed :
      (name : String) (u : Upstream) (c : List String × Bool) (w : W r keeps) (e : Error)
      → c.1 ≡ true
      → upstreams.update (upstream_key name) (record u { finalizers = c.0 }) w.foreign
        ≡ (w.foreign, some e)
      → put_finalizers r keeps name u c w ≡ (w, some e)
  put_finalizers_failed name u (fs, false) w e changed failed = absurd (ground arith)
  put_finalizers_failed name u (fs, true) w e changed failed =
      ap (λ (x : upstreams.Store × Option Error). (record w { foreign = x.0 }, x.1)) failed

  add_finalizer-changed :
      (u : Upstream)
      → ¬ In (finalizer r keeps) u.finalizers
      → (fin.add (finalizer r keeps) u.finalizers).1 ≡ true
  add_finalizer-changed u bare = elim (Bool-cases (fin.add (finalizer r keeps) u.finalizers).1) [
    | inl changed ↦ changed
    | inr same ↦ absurd (bare (fin.add-unchanged (finalizer r keeps) u.finalizers same))
  ]

  -- When the object upstream is read and is not being deleted, the group can be written, and the
  -- update that adds the finalizer returns an error and changes nothing, the reconciliation returns
  -- that error and leaves a group that is not protected.
  pub reconcile_unprotected :
      (name : String) (w : W r keeps) (u : Upstream) (e : Error)
      → upstreams.get (upstream_key name) w.foreign ≡ ok u
      → u.deleting ≡ false
      → ¬ In (finalizer r keeps) u.finalizers
      → (groups.create_or_update name [] (users_of r u) w.local).1 ≡ none
      → upstreams.update
          (upstream_key name)
          (record u { finalizers = (fin.add (finalizer r keeps) u.finalizers).0 })
          w.foreign
        ≡ (w.foreign, some e)
      → ((run r keeps name w).1 ≡ some e) × (¬ IsGuarded name (run r keeps name w).0)
  reconcile_unprotected name w u e read present bare put failed =
      let held = upstreams.get-find (upstream_key name) w.foreign u read in
      let (users, _, there) = groups.create_or_update-find name [] (users_of r u) w.local put in
      let all : run r keeps name w ≡ (written r keeps name u w, some e) =
        run-present r keeps name w u read present
        ∙ ap (after_put r (upstream_key name) u (written r keeps name u w)) put
        ∙ put_finalizers_failed name u (fin.add (finalizer r keeps) u.finalizers)
            (written r keeps name u w) e (add_finalizer-changed u bare) failed in
      (
        ap (λ x. x.1) all,
        λ guarded. elim (subst (λ x. IsGuarded name x.0) all guarded) [
          | inl gone ↦ absurd (ground arith)
          | inr (v, held', in_v) ↦
              let same : v ≡ u = ground arith in
              bare (subst (λ x. In (finalizer r keeps) x.finalizers) same in_v)
        ],
      )
