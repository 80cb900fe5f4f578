-- ===== src/Controllers/ProfileApply/Complete.antt =====
-- controllers/zoneusageprofileapply_controller.go: a reconciliation puts all resources in place.
use mathlib.Core.Path.{subst}
use appuio_cloud_agent.Base.{
  String, Bool-cases, ◌&&◌, ◌≡◌, refl, sym, ap, ◌∙◌, inl, inr, List, [], ◌∷◌, none, Dict, In, All,
  false, if_then, if_else,
}
use appuio_cloud_agent.Kube.{ok, Multierr, Namespace, Works}
use appuio_cloud_agent.Controllers.ProfileApply.{
  ObjectKey, Object, Profile, ZoneUsageProfileApplyReconciler, World, object_key, apply_converted,
  apply_resource_to_namespace, Progress, apply_all, visit, on_profile, on_namespaces, reconcile,
}
use appuio_cloud_agent.Controllers.ProfileApply.Laws.{applied}
use appuio_cloud_agent.Controllers.ProfileApply.Kept.{with_error-world, is_skipped, apply_keeps}
use appuio_cloud_agent.Controllers.ProfileApply.Success.{
  IsUncontested, IsConvertible, IsWorking, applied-IsUncontested, reconcile_works,
}
use appuio_cloud_agent.Controllers.ProfileApply.Put.{
  IsComplete, IsProvided, IsNamed, IsPut, IsPut-IsComplete, applied-IsPut, applied-IsPut_stays,
}

module _ {C R : Type 0} (multierr : Multierr) (r : ZoneUsageProfileApplyReconciler C R)
    (profile : Profile R) where
  open r use {objects}

  module _ (works : Works objects) (working : IsWorking multierr r) (nss : List Namespace)
      (named : IsNamed multierr r profile nss) where
    -- A resource of the profile that converts.
    abbrev IsListed : String × R → Type 0
    IsListed e = In e profile.resources × IsConvertible multierr r e

    apply-store :
        (name : String) (ns : Namespace) (x : R) (raw : Object C) (w : World multierr r)
        → r.to_unstructured x ≡ ok raw
        → (apply_resource_to_namespace multierr r name ns x profile.name w).0.store
          ≡ (applied multierr r name ns raw profile.name w.store).0
    unfolding apply_resource_to_namespace
    apply-store name ns x raw w converts =
        ap (λ c. (apply_converted multierr r name ns c profile.name w).0.store) converts

    apply-IsUncontested :
        (name : String) (ns : Namespace) (x : R) (w : World multierr r)
        → IsUncontested multierr r profile.name w.store
        → IsUncontested multierr r profile.name
            (apply_resource_to_namespace multierr r name ns x profile.name w).0.store
    apply-IsUncontested =
        apply_keeps multierr r profile (IsUncontested multierr r profile.name)
          (applied-IsUncontested multierr r works working profile)

    abbrev Keeps : (World multierr r → Progress multierr r) → Type 0
    Keeps rest =
        (k : ObjectKey) (w : World multierr r)
        → IsPut multierr r profile nss k w.store
        → IsPut multierr r profile nss k (rest w).world.store

    -- From an uncontested store it ends in one of these.
    abbrev Ends : (World multierr r → Progress multierr r) → (objects.Store → Type 0) → Type 0
    Ends rest Q =
        (w : World multierr r)
        → IsUncontested multierr r profile.name w.store
        → Q (rest w).world.store

    apply_all-Keeps :
        (ns : Namespace) (xs : Dict R) (rest : World multierr r → Progress multierr r)
        → In ns nss
        → All IsListed xs
        → Keeps rest
        → Keeps (apply_all multierr r profile.name ns xs rest)
    unfolding apply_all
    apply_all-Keeps ns [] rest here all after k w put = after k w put
    apply_all-Keeps ns ((name, x) ∷ xs) rest here ((there, (raw, converts, _)), all) after k w put =
        let (w', e) = apply_resource_to_namespace multierr r name ns x profile.name w in
        let put' =
          subst (IsPut multierr r profile nss k) (sym (apply-store name ns x raw w converts)) (
            applied-IsPut_stays multierr r profile works working nss named name ns x raw there here
              converts k w.store put) in
        subst (λ (v : World multierr r). IsPut multierr r profile nss k v.store)
          (sym (
            with_error-world multierr r name ns.name e
              (apply_all multierr r profile.name ns xs rest w')))
          (apply_all-Keeps ns xs rest here all after k w' put')

    apply_all-Ends :
        (ns : Namespace) (xs : Dict R) (rest : World multierr r → Progress multierr r)
        (Q : objects.Store → Type 0)
        → Ends rest Q
        → Ends (apply_all multierr r profile.name ns xs rest) Q
    unfolding apply_all
    apply_all-Ends ns [] rest Q after w own = after w own
    apply_all-Ends ns ((name, x) ∷ xs) rest Q after w own =
        let (w', e) = apply_resource_to_namespace multierr r name ns x profile.name w in
        subst (λ (v : World multierr r). Q v.store)
          (sym (
            with_error-world multierr r name ns.name e
              (apply_all multierr r profile.name ns xs rest w')))
          (apply_all-Ends ns xs rest Q after w' (apply-IsUncontested name ns x w own))

    apply_all-IsComplete :
        (ns : Namespace) (xs : Dict R) (rest : World multierr r → Progress multierr r)
        → In ns nss
        → All IsListed xs
        → Keeps rest
        → Ends
            (apply_all multierr r profile.name ns xs rest)
            (λ s. All (IsComplete multierr r profile s ns) xs)
    unfolding apply_all
    apply_all-IsComplete ns [] rest here all after w own = tt
    apply_all-IsComplete ns ((name, x) ∷ xs) rest here ((there, (raw, converts, _)), all) after w
          own =
        let (w', e) = apply_resource_to_namespace multierr r name ns x profile.name w in
        let k = object_key multierr r name ns raw in
        let put =
          subst (IsPut multierr r profile nss k) (sym (apply-store name ns x raw w converts)) (
            applied-IsPut multierr r profile works working nss named name ns x raw there here
              converts w.store own) in
        let last = apply_all multierr r profile.name ns xs rest w' in
        subst
          (λ (v : World multierr r).
            All (IsComplete multierr r profile v.store ns) ((name, x) ∷ xs))
          (sym (with_error-world multierr r name ns.name e last))
          (
            IsPut-IsComplete multierr r profile works working nss named name x ns raw
                last.world.store there here converts
                (apply_all-Keeps ns xs rest here all after k w' put),
            apply_all-IsComplete ns xs rest here all after w' (apply-IsUncontested name ns x w own),
          )

    listed :
        (xs : Dict R)
        → ((e : String × R) → In e xs → In e profile.resources)
        → All (IsConvertible multierr r) xs
        → All IsListed xs
    listed [] sub all = tt
    listed (x ∷ xs) sub (convertible, all) =
        ((sub x (inl refl), convertible), listed xs (λ e there. sub e (inr there)) all)

    module _ (convertible : All (IsConvertible multierr r) profile.resources) where
      abbrev resources_listed : All IsListed profile.resources
      resources_listed = listed profile.resources (λ e there. there) convertible

      visit-Keeps :
          (rest : List Namespace)
          → ((m : Namespace) → In m rest → In m nss)
          → Keeps (visit multierr r profile rest)
      unfolding visit
      visit-Keeps [] sub k w put = put
      visit-Keeps (ns ∷ rest) sub k w put =
          let later = visit-Keeps rest (λ m there. sub m (inr there)) in
          elim (Bool-cases (ns.deleting && r.is_past ns)) [
            | inl past ↦ rw past (later k w put)
            | inr live ↦ rw live (
                apply_all-Keeps ns profile.resources (visit multierr r profile rest)
                  (sub ns (inl refl)) resources_listed later k w put)
          ]

      visit-IsProvided :
          (rest : List Namespace)
          → ((m : Namespace) → In m rest → In m nss)
          → Ends (visit multierr r profile rest) (λ s. All (IsProvided multierr r profile s) rest)
      unfolding visit
      visit-IsProvided [] sub w own = tt
      visit-IsProvided (ns ∷ rest) sub w own =
          let here = sub ns (inl refl) in
          let sub_later : (m : Namespace) → In m rest → In m nss = λ m there. sub m (inr there) in
          let later = visit multierr r profile rest in
          let done = visit-IsProvided rest sub_later in
          elim (Bool-cases (ns.deleting && r.is_past ns)) [
            | inl past ↦
                subst
                  (λ (g : Progress multierr r).
                    All (IsProvided multierr r profile g.world.store) (ns ∷ rest))
                  (sym (
                    if_then (ns.deleting && r.is_past ns) (later w)
                      (apply_all multierr r profile.name ns profile.resources later w) past))
                  (inl past, done w own)
            | inr live ↦
                subst
                  (λ (g : Progress multierr r).
                    All (IsProvided multierr r profile g.world.store) (ns ∷ rest))
                  (sym (
                    if_else (ns.deleting && r.is_past ns) (later w)
                      (apply_all multierr r profile.name ns profile.resources later w) live))
                  (
                    inr (
                        apply_all-IsComplete ns profile.resources later here resources_listed
                          (visit-Keeps rest sub_later) w own),
                    apply_all-Ends ns profile.resources later
                        (λ s. All (IsProvided multierr r profile s) rest) done w own,
                  )
          ]

    -- Where no call fails, each resource of the profile converts to an object with a kind, no object
    -- is labelled as another profile's, and no two resources of the profile and no two listed
    -- namespaces have the same name, a reconciliation of a profile that is not skipped returns no
    -- error. In the end, in every listed namespace that is not past its deletion, the object under
    -- the kind and the name of each resource is the one that the resource converts to, moved to that
    -- namespace and name, with the profile set as its controller and changed by the transformers one
    -- after the other, except for its labels, which name the profile.
    pub reconcile-IsProvided_always :
        (name : String) (w : World multierr r)
        → is_skipped multierr r name ≡ false
        → r.get_profile name ≡ ok profile
        → r.list_namespaces ≡ ok nss
        → All (IsConvertible multierr r) profile.resources
        → IsUncontested multierr r profile.name w.store
        → ((reconcile multierr r name w).error ≡ none)
          × All (IsProvided multierr r profile (reconcile multierr r name w).world.store) nss
    unfolding reconcile
    reconcile-IsProvided_always name w reads got namespaces convertible own = (
      reconcile_works multierr r works working profile name w nss reads got namespaces convertible
          own,
      subst (λ out. All (IsProvided multierr r profile out.world.store) nss)
          (sym (
            if_else (is_skipped multierr r name) _ _ reads
            ∙ ap (λ g. on_profile multierr r g w) got
            ∙ ap (λ l. on_namespaces multierr r profile l w) namespaces))
          (visit-IsProvided convertible nss (λ m there. there) w own),
    )
