-- ===== src/Controllers/GroupSync/Laws.antt =====
-- controllers/groupsync_controller.go: what a reconciliation leaves behind.
use mathlib.Core.Path.{subst, sym}
use appuio_cloud_agent.Base.{
  String, Bool, Bool-cases, if_then, if_else, true, false, ◌≡◌, refl, ap, ◌∙◌, ◌↔◌, ◌⊎◌, inl, inr,
  List, [], Option, none, some, In, arith,
}
use appuio_cloud_agent.Kube.{Error, is_not_found, ok}
use appuio_cloud_agent.Controllers.GroupSync.{
  GroupSyncReconciler, Upstream, upstream_key, World, finalizer_name, update_finalizers,
  after_delete, users_of, after_put, reconcile,
}

-- Of an object upstream that is not being deleted, or that has a finalizer, exactly what was written
-- is held; of any other nothing is, or that.
pub record KeepsUpstream (kept : Upstream → Option Upstream) : Type 0 where
  pub kept_present : (u : Upstream) → u.deleting ≡ false → kept u ≡ some u
  pub kept_finalized : (u : Upstream) (f : String) → In f u.finalizers → kept u ≡ some u
  pub kept_same : (u v : Upstream) → kept u ≡ some v → v ≡ u

module _ (r : GroupSyncReconciler) (keeps : KeepsUpstream r.upstreams.kept) where
  open r use {groups, upstreams, fin, sorting}

  abbrev pub W : Type 0
  W = World r

  abbrev pub run : String → W → W × Option Error
  run = reconcile r

  abbrev pub finalizer : String
  finalizer = finalizer_name r

  abbrev pub group_in : String → W → Option (List String)
  group_in name w = groups.find name w.local

  abbrev pub upstream_in : String → W → Option Upstream
  upstream_in name w = upstreams.find (upstream_key name) w.foreign

  -- The object upstream carries the finalizer.
  abbrev pub IsFinalized : String → W → Type 0
  IsFinalized name w = (u : Upstream) × (upstream_in name w ≡ some u) × In finalizer u.finalizers

  -- The group lists the members and no one else, and the object upstream carries the finalizer.
  abbrev pub IsCopied : String → Upstream → W → Type 0
  IsCopied name u w =
      (users : List String) × (group_in name w ≡ some users)
      × ((x : String) → In x users ↔ In x u.members)
      × IsFinalized name w

  -- The group is gone, and the object upstream is gone or does not carry the finalizer.
  abbrev pub IsCleared : String → W → Type 0
  IsCleared name w =
      (group_in name w ≡ none)
      × ((u : Upstream) → upstream_in name w ≡ some u → ¬ In finalizer u.finalizers)

  abbrev pub put_finalizers : String → Upstream → List String × Bool → W → W × Option Error
  put_finalizers name = update_finalizers r (upstream_key name)

  -- The update of the finalizers leaves the groups alone.
  pub put_finalizers-local :
      (name : String) (u : Upstream) (c : List String × Bool) (w : W)
      → (put_finalizers name u c w).0.local ≡ w.local
  put_finalizers-local name u (fs, true) w = refl
  put_finalizers-local name u (fs, false) w = refl

  -- Where it adds the finalizer without an error, the object carries it.
  pub add_finalizer-IsFinalized :
      (name : String) (u : Upstream) (w : W)
      → u.deleting ≡ false
      → upstream_in name w ≡ some u
      → (put_finalizers name u (fin.add finalizer u.finalizers) w).1 ≡ none
      → IsFinalized name (put_finalizers name u (fin.add finalizer u.finalizers) w).0
  add_finalizer-IsFinalized name u w present held fine =
      go (fin.add finalizer u.finalizers)
        ((fin.In-add_iff finalizer finalizer u.finalizers).1 (inl refl))
        (fin.add-unchanged finalizer u.finalizers) fine
    where
      go :
          (c : List String × Bool)
          → In finalizer c.0
          → (c.1 ≡ false → In finalizer u.finalizers)
          → (put_finalizers name u c w).1 ≡ none
          → IsFinalized name (put_finalizers name u c w).0
      go (fs, false) added there fine = (u, held, there refl)
      go (fs, true) added there fine =
          let u' : Upstream = record u { finalizers = fs } in
          (
            u',
            upstreams.update-find (upstream_key name) u' w.foreign fine
                ∙ keeps.kept_present u' present,
            added,
          )

  same_upstream : {o : Option Upstream} {u v : Upstream} → o ≡ some u → o ≡ some v → v ≡ u
  same_upstream {o} {u} {v} h k = ground arith

  -- Where it removes the finalizer without an error, no object with the finalizer is left.
  remove_finalizer-clears :
      (name : String) (u : Upstream) (w : W)
      → upstream_in name w ≡ some u
      → (put_finalizers name u (fin.remove finalizer u.finalizers) w).1 ≡ none
      → (v : Upstream)
      → upstream_in name (put_finalizers name u (fin.remove finalizer u.finalizers) w).0 ≡ some v
      → ¬ In finalizer v.finalizers
  remove_finalizer-clears name u w held fine =
      go (fin.remove finalizer u.finalizers)
        (λ m. ((fin.In-remove_iff finalizer finalizer u.finalizers).0 m).0 refl)
        (fin.remove-unchanged finalizer u.finalizers) fine
    where
      go :
          (c : List String × Bool)
          → ¬ In finalizer c.0
          → (c.1 ≡ false → c.0 ≡ u.finalizers)
          → (put_finalizers name u c w).1 ≡ none
          → (v : Upstream) → upstream_in name (put_finalizers name u c w).0 ≡ some v
          → ¬ In finalizer v.finalizers
      go (fs, false) gone same fine v h m = gone (
          subst (λ l. In finalizer l) (sym (same refl))
            (subst (λ x. In finalizer x.finalizers) (same_upstream held h) m))
      go (fs, true) gone same fine v h m =
          let u' : Upstream = record u { finalizers = fs } in
          let e =
            keeps.kept_same u' v
              (sym (upstreams.update-find (upstream_key name) u' w.foreign fine) ∙ h) in
          gone (subst (λ x. In finalizer x.finalizers) e m)

  -- The end of a deletion, once the group is gone.
  finish_delete-IsCleared :
      (name : String) (u : Upstream) (w : W)
      → group_in name w ≡ none
      → upstream_in name w ≡ some u
      → (put_finalizers name u (fin.remove finalizer u.finalizers) w).1 ≡ none
      → IsCleared name (put_finalizers name u (fin.remove finalizer u.finalizers) w).0
  finish_delete-IsCleared name u w gone held fine = (
    ap (groups.find name) (put_finalizers-local name u (fin.remove finalizer u.finalizers) w)
        ∙ gone,
    remove_finalizer-clears name u w held fine,
  )

  abbrev pub deleted : String → W → W
  deleted name w = record { local = (groups.delete name w.local).0; foreign = w.foreign }

  after_delete-IsCleared :
      (name : String) (u : Upstream) (w : W) (e : Option Error)
      → upstream_in name w ≡ some u
      → (groups.delete name w.local).1 ≡ e
      → (after_delete r (upstream_key name) u (deleted name w) e).1 ≡ none
      → IsCleared name (after_delete r (upstream_key name) u (deleted name w) e).0
  after_delete-IsCleared name u w none held is fine =
      finish_delete-IsCleared name u (deleted name w)
        (groups.delete-find name w.local none is (inl refl)) held fine
  after_delete-IsCleared name u w (some f) held is fine = elim (Bool-cases (is_not_found f)) [
    | inl missing ↦ rw missing (
        finish_delete-IsCleared name u (deleted name w)
          (groups.delete-find name w.local (some f) is (inr (f, refl, missing))) held
          (rw missing at fine))
    | inr other ↦
        let never : ◌≡◌ {A = Option Error} (some f) none = rw other at fine in absurd (ground arith)
  ]

  abbrev pub written : String → Upstream → W → W
  written name u w = record {
    local = (groups.create_or_update name [] (users_of r u) w.local).0;
    foreign = w.foreign;
  }

  after_put-IsCopied :
      (name : String) (u : Upstream) (w : W) (e : Option Error)
      → u.deleting ≡ false
      → upstream_in name w ≡ some u
      → (groups.create_or_update name [] (users_of r u) w.local).1 ≡ e
      → (after_put r (upstream_key name) u (written name u w) e).1 ≡ none
      → IsCopied name u (after_put r (upstream_key name) u (written name u w) e).0
  after_put-IsCopied name u w (some f) present held is fine = absurd (ground arith)
  after_put-IsCopied name u w none present held is fine =
      let c = fin.add finalizer u.finalizers in
      let (users, made, there) = groups.create_or_update-find name [] (users_of r u) w.local is in
      let sorted : users ≡ sorting.sort u.members = ground arith in
      (
        users,
        ap (groups.find name) (put_finalizers-local name u c (written name u w)) ∙ there,
        λ x. subst (λ l. In x l ↔ In x u.members) (sym sorted) (sorting.In-sort_iff x u.members),
        add_finalizer-IsFinalized name u (written name u w) present held fine,
      )

  -- The two ways of a reconciliation that reads the object upstream.
  pub run-deleting :
      (name : String) (w : W) (u : Upstream)
      → upstreams.get (upstream_key name) w.foreign ≡ ok u
      → u.deleting ≡ true
      → run name w
        ≡ after_delete r (upstream_key name) u (deleted name w) (groups.delete name w.local).1
  unfolding reconcile
  run-deleting name w u read h = rw read (if_then u.deleting _ _ h)

  pub run-present :
      (name : String) (w : W) (u : Upstream)
      → upstreams.get (upstream_key name) w.foreign ≡ ok u
      → u.deleting ≡ false
      → run name w
        ≡ after_put r
            (upstream_key name)
            u
            (written name u w)
            (groups.create_or_update name [] (users_of r u) w.local).1
  unfolding reconcile
  run-present name w u read h = rw read (if_else u.deleting _ _ h)

  -- After a reconciliation without an error of a group whose object upstream can be read: if that
  -- object is being deleted, the group is gone, and no object with the finalizer is left upstream;
  -- otherwise the group lists exactly the members, and the object upstream carries the finalizer.
  pub reconcile-IsCopied :
      (name : String) (w : W) (u : Upstream)
      → upstreams.get (upstream_key name) w.foreign ≡ ok u
      → (run name w).1 ≡ none
      → ((u.deleting ≡ true) × IsCleared name (run name w).0)
        ⊎ ((u.deleting ≡ false) × IsCopied name u (run name w).0)
  reconcile-IsCopied name w u read fine =
      let held = upstreams.get-find (upstream_key name) w.foreign u read in
      elim (Bool-cases u.deleting) [
        | inl deleting ↦
            let e = run-deleting name w u read deleting in
            inl (
              deleting,
              subst (λ r. IsCleared name r.0) (sym e)
                  (after_delete-IsCleared name u w (groups.delete name w.local).1 held refl
                    (sym (ap (λ r. r.1) e) ∙ fine)),
            )
        | inr present ↦
            let e = run-present name w u read present in
            inr (
              present,
              subst (λ r. IsCopied name u r.0) (sym e)
                  (after_put-IsCopied name u w _ present held refl (sym (ap (λ r. r.1) e) ∙ fine)),
            )
      ]
