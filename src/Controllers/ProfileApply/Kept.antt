-- ===== src/Controllers/ProfileApply/Kept.antt =====
-- controllers/zoneusageprofileapply_controller.go: what all its loops keep.
use mathlib.Core.Path.{subst}
use appuio_cloud_agent.Base.{
  String, Bool, Bool-cases, not, ◌&&◌, ◌≡◌, ◌≢◌, refl, sym, inl, inr, List, [], ◌∷◌, Option, none,
  some, Dict, lookup, ◌==◌,
}
use appuio_cloud_agent.Kube.{Error, Result, ok, err, Multierr, Namespace}
use appuio_cloud_agent.Controllers.ProfileApply.{
  resource_owner_label, ObjectKey, Object, Profile, ZoneUsageProfileApplyReconciler, World,
  apply_converted, apply_resource_to_namespace, Progress, with_error, apply_all, visit,
  on_namespaces, on_profile, reconcile,
}
use appuio_cloud_agent.Controllers.ProfileApply.Laws.{applied, applied-find_other}

module _ {C R : Type 0} (multierr : Multierr) (r : ZoneUsageProfileApplyReconciler C R) where
  open r use {objects}

  pub with_error-world :
      (n m : String) (e : Option Error) (g : Progress multierr r)
      → (with_error multierr r n m e g).world ≡ g.world
  with_error-world n m none g = refl
  with_error-world n m (some e) g = refl

  -- What every call of `CreateOrUpdate` for a profile keeps is kept throughout.
  module _ (profile : Profile R) (P : objects.Store → Type 0)
      (keeps : (name : String) (ns : Namespace) (raw : Object C) (s : objects.Store)
        → P s
        → P (applied multierr r name ns raw profile.name s).0) where
    pub apply_keeps :
        (name : String) (ns : Namespace) (x : R) (w : World multierr r)
        → P w.store
        → P (apply_resource_to_namespace multierr r name ns x profile.name w).0.store
    unfolding apply_resource_to_namespace
    apply_keeps name ns x w h = go (r.to_unstructured x)
      where
        go :
            (c : Result (Object C))
            → P (apply_converted multierr r name ns c profile.name w).0.store
        go (err e) = h
        go (ok raw) = keeps name ns raw w.store h

    pub apply_all_keeps :
        (ns : Namespace) (xs : Dict R) (rest : World multierr r → Progress multierr r)
        → ((w : World multierr r) → P w.store → P (rest w).world.store)
        → (w : World multierr r) → P w.store
        → P (apply_all multierr r profile.name ns xs rest w).world.store
    unfolding apply_all
    apply_all_keeps ns [] rest after w h = after w h
    apply_all_keeps ns ((name, x) ∷ xs) rest after w h =
        let (w', e) = apply_resource_to_namespace multierr r name ns x profile.name w in
        subst (λ v. P v.store)
          (sym (with_error-world name ns.name e (apply_all multierr r profile.name ns xs rest w')))
          (apply_all_keeps ns xs rest after w' (apply_keeps name ns x w h))

    pub visit_keeps :
        (nss : List Namespace) (w : World multierr r)
        → P w.store
        → P (visit multierr r profile nss w).world.store
    unfolding visit
    visit_keeps [] w h = h
    visit_keeps (ns ∷ nss) w h = elim (Bool-cases (ns.deleting && r.is_past ns)) [
      | inl past ↦ rw past (visit_keeps nss w h)
      | inr live ↦ rw live (
          apply_all_keeps ns profile.resources (visit multierr r profile nss) (visit_keeps nss) w h)
    ]

    on_namespaces_keeps :
        (l : Result (List Namespace)) (w : World multierr r)
        → P w.store
        → P (on_namespaces multierr r profile l w).world.store
    on_namespaces_keeps (err e) w h = h
    on_namespaces_keeps (ok nss) w h = visit_keeps nss w h

  -- This profile is not the selected one.
  abbrev pub is_skipped : String → Bool
  is_skipped name = not (r.selected_profile == "") && not (r.selected_profile == name)

  -- Objects of another profile are never changed, whether the reconciliation succeeds or not.
  pub reconcile-find_other :
      (name : String) (w : World multierr r) (k : ObjectKey) (o : Object C) (q : String)
      → objects.find k w.store ≡ some o
      → lookup resource_owner_label o.labels ≡ some q
      → ((profile : Profile R) → r.get_profile name ≡ ok profile → q ≢ profile.name)
      → objects.find k (reconcile multierr r name w).world.store ≡ some o
  unfolding reconcile
  reconcile-find_other name w k o q held carries other = elim (Bool-cases (is_skipped name)) [
    | inl skipped ↦ rw skipped held
    | inr reads ↦ rw reads (go (r.get_profile name) other)
  ]
    where
      go :
          (g : Result (Profile R))
          → ((profile : Profile R) → g ≡ ok profile → q ≢ profile.name)
          → objects.find k (on_profile multierr r g w).world.store ≡ some o
      go (err e) apart = held
      go (ok profile) apart =
          on_namespaces_keeps profile (λ s. objects.find k s ≡ some o)
            (λ n ns raw s h.
              applied-find_other multierr r n ns raw profile.name q s k o h carries
                (apart profile refl))
            r.list_namespaces w held
