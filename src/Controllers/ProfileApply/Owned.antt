-- ===== src/Controllers/ProfileApply/Owned.antt =====
-- controllers/zoneusageprofileapply_controller.go: the loops, and what a reconciliation leaves.
use mathlib.Core.Path.{subst}
use appuio_cloud_agent.Base.{
  String, Bool, Bool-cases, if_then, if_else, true, false, ◌&&◌, ◌≡◌, ◌≢◌, refl, sym, ap, ◌∙◌, ◌⊎◌,
  inl, inr, List, [], ◌∷◌, Option, none, some, Dict, lookup, All, All-In, In, arith,
}
use appuio_cloud_agent.Kube.{Error, Result, ok, err, Multierr, combine-none, Namespace}
use appuio_cloud_agent.Controllers.ProfileApply.{
  resource_owner_label, ObjectKey, Object, Profile, ZoneUsageProfileApplyReconciler, World,
  ensure_watch, object_key, watch_error, apply_converted, apply_resource_to_namespace, Progress,
  with_error, apply_all, visit, on_namespaces, on_profile, reconcile,
}
use appuio_cloud_agent.Controllers.ProfileApply.Kept.{
  with_error-world, apply_all_keeps, visit_keeps, is_skipped, reconcile-find_other,
}
use appuio_cloud_agent.Controllers.ProfileApply.Laws.{
  IsOwned, applied, applied-IsOwned, applied-IsOwned_stays,
}

module _ {C R : Type 0} (multierr : Multierr) (r : ZoneUsageProfileApplyReconciler C R) where
  open r use {objects}

  with_error-none :
      (n m : String) (e : Option Error) (g : Progress multierr r)
      → (with_error multierr r n m e g).errors ≡ []
      → (e ≡ none) × (g.errors ≡ [])
  with_error-none n m none g h = (refl, h)
  with_error-none n m (some e) g h = absurd (ground arith)

  watch_error-none :
      (e f : Option Error) → watch_error multierr r e f ≡ none → (e ≡ none) × (f ≡ none)
  watch_error-none none f h = (refl, h)
  watch_error-none (some e) f h = absurd (ground arith)

  module _ (profile : Profile R) where
    -- The resource converts, and its object in the namespace carries the profile's label.
    abbrev pub IsApplied : objects.Store → Namespace → String × R → Type 0
    IsApplied s ns (name, x) =
        (raw : Object C) × (r.to_unstructured x ≡ ok raw)
        × IsOwned multierr r profile.name (object_key multierr r name ns raw) s

    abbrev pub is_gone : Namespace → Bool
    is_gone ns = ns.deleting && r.is_past ns

    abbrev pub IsServed : objects.Store → Namespace → Type 0
    IsServed s ns = (is_gone ns ≡ true) ⊎ All (IsApplied s ns) profile.resources

    apply_resource-IsApplied :
        (name : String) (ns : Namespace) (x : R) (w : World multierr r)
        → (apply_resource_to_namespace multierr r name ns x profile.name w).1 ≡ none
        → IsApplied
            (apply_resource_to_namespace multierr r name ns x profile.name w).0.store
            ns
            (name, x)
    unfolding apply_resource_to_namespace
    apply_resource-IsApplied name ns x w = go (r.to_unstructured x)
      where
        go :
            (c : Result (Object C))
            → (apply_converted multierr r name ns c profile.name w).1 ≡ none
            → (raw : Object C) × (c ≡ ok raw)
              × IsOwned multierr r profile.name
                  (object_key multierr r name ns raw)
                  (apply_converted multierr r name ns c profile.name w).0.store
        go (err e) h = absurd (ground arith)
        go (ok raw) h =
            let (_, fine) =
              watch_error-none (ensure_watch r.is_ready r.watch raw.gvk w.tracker).1
                (applied multierr r name ns raw profile.name w.store).1 h in
            (raw, refl, applied-IsOwned multierr r name ns raw profile.name w.store fine)

    -- Later calls leave an applied resource applied.
    IsOwned-stays :
        (k : ObjectKey) (name : String) (ns : Namespace) (raw : Object C) (s : objects.Store)
        → IsOwned multierr r profile.name k s
        → IsOwned multierr r profile.name k (applied multierr r name ns raw profile.name s).0
    IsOwned-stays k name ns raw s h =
        applied-IsOwned_stays multierr r name ns raw profile.name s k h

    abbrev Stays : (World multierr r → Progress multierr r) → Type 0
    Stays rest =
        (k : ObjectKey) (w : World multierr r)
        → IsOwned multierr r profile.name k w.store
        → IsOwned multierr r profile.name k (rest w).world.store

    -- Without an error, all resources are applied, and what follows reports no error either.
    apply_all-IsApplied :
        (ns : Namespace) (xs : Dict R) (rest : World multierr r → Progress multierr r)
        → Stays rest
        → (w : World multierr r) → (apply_all multierr r profile.name ns xs rest w).errors ≡ []
        → All (IsApplied (apply_all multierr r profile.name ns xs rest w).world.store ns) xs
          × ((v : World multierr r) × ((rest v).errors ≡ [])
              × ((rest v).world ≡ (apply_all multierr r profile.name ns xs rest w).world))
    unfolding apply_all
    apply_all-IsApplied ns [] rest after w h = (tt, (w, h, refl))
    apply_all-IsApplied ns ((name, x) ∷ xs) rest after w h =
        let (w', e) = apply_resource_to_namespace multierr r name ns x profile.name w in
        let later = apply_all multierr r profile.name ns xs rest w' in
        let (fine, fine_later) = with_error-none name ns.name e later h in
        let (all_later, (v, fine_rest, same)) =
          apply_all-IsApplied ns xs rest after w' fine_later in
        let (raw, converts, owns) = apply_resource-IsApplied name ns x w fine in
        subst
          (λ z.
            All (IsApplied z.store ns) ((name, x) ∷ xs)
            × ((u : World multierr r) × ((rest u).errors ≡ []) × ((rest u).world ≡ z)))
          (sym (with_error-world multierr r name ns.name e later))
          (
            (
              (
                raw,
                converts,
                apply_all_keeps multierr r profile
                    (λ s. IsOwned multierr r profile.name (object_key multierr r name ns raw) s)
                    (IsOwned-stays (object_key multierr r name ns raw)) ns xs rest
                    (after (object_key multierr r name ns raw)) w' owns,
              ),
              all_later,
            ),
            (v, fine_rest, same),
          )

    visit_past :
        (ns : Namespace) (nss : List Namespace) (w : World multierr r)
        → is_gone ns ≡ true
        → visit multierr r profile (ns ∷ nss) w ≡ visit multierr r profile nss w
    unfolding visit
    visit_past ns nss w past = if_then (is_gone ns) _ _ past

    visit_live :
        (ns : Namespace) (nss : List Namespace) (w : World multierr r)
        → is_gone ns ≡ false
        → visit multierr r profile (ns ∷ nss) w
          ≡ apply_all multierr r profile.name ns profile.resources (visit multierr r profile nss) w
    unfolding visit
    visit_live ns nss w live = if_else (is_gone ns) _ _ live

    -- If there is no error then, all are served.
    abbrev Serves : List Namespace → Progress multierr r → Type 0
    Serves nss g = g.errors ≡ [] → All (IsServed g.world.store) nss

    pub visit-IsServed :
        (nss : List Namespace) (w : World multierr r) → Serves nss (visit multierr r profile nss w)
    visit-IsServed [] w = λ h. tt
    visit-IsServed (ns ∷ nss) w = elim (Bool-cases (is_gone ns)) [
      | inl past ↦
          subst (Serves (ns ∷ nss)) (sym (visit_past ns nss w past))
            (λ h. (inl past, visit-IsServed nss w h))
      | inr live ↦ subst (Serves (ns ∷ nss)) (sym (visit_live ns nss w live)) (λ h.
          let (all, (v, fine, same)) =
            apply_all-IsApplied ns profile.resources (visit multierr r profile nss)
              (λ k u o.
                visit_keeps multierr r profile (λ s. IsOwned multierr r profile.name k s)
                  (IsOwned-stays k) nss u o)
              w h in
          (inr all, subst (λ z. All (IsServed z.store) nss) same (visit-IsServed nss v fine)))
    ]

  -- A reconciliation without an error has applied every resource in every namespace that is served.
  pub reconcile-IsServed :
      (name : String) (w : World multierr r) (profile : Profile R) (nss : List Namespace)
      → is_skipped multierr r name ≡ false
      → r.get_profile name ≡ ok profile
      → r.list_namespaces ≡ ok nss
      → (reconcile multierr r name w).error ≡ none
      → All (IsServed profile (reconcile multierr r name w).world.store) nss
  unfolding reconcile
  reconcile-IsServed name w profile nss reads got listed =
      subst (λ out. out.error ≡ none → All (IsServed profile out.world.store) nss)
        (sym (
          if_else (is_skipped multierr r name) _ _ reads
          ∙ ap (λ g. on_profile multierr r g w) got
          ∙ ap (λ l. on_namespaces multierr r profile l w) listed))
        (λ fine.
          visit-IsServed profile nss w
            (combine-none multierr (visit multierr r profile nss w).errors fine))

  -- A resource whose object in a served namespace belongs to another profile is reported.
  pub reconcile_conflict :
      (name : String) (w : World multierr r) (profile : Profile R) (nss : List Namespace)
      (ns : Namespace) (n : String) (x : R) (raw o : Object C) (q : String)
      → is_skipped multierr r name ≡ false
      → r.get_profile name ≡ ok profile
      → r.list_namespaces ≡ ok nss
      → In ns nss
      → is_gone profile ns ≡ false
      → In (n, x) profile.resources
      → r.to_unstructured x ≡ ok raw
      → objects.find (object_key multierr r n ns raw) w.store ≡ some o
      → lookup resource_owner_label o.labels ≡ some q
      → q ≢ profile.name
      → (reconcile multierr r name w).error ≢ none
  reconcile_conflict name w profile nss ns n x raw o q reads got listed here live there converts
        held carries other fine =
      elim (All-In _ nss (reconcile-IsServed name w profile nss reads got listed fine) here) [
        | inl past ↦ absurd (ground arith)
        | inr all ↦
            let (raw', converts', (o', held', carries')) = All-In _ profile.resources all there in
            let same : raw' ≡ raw = ground arith in
            let kept =
              reconcile-find_other multierr r name w (object_key multierr r n ns raw) o q held
                carries
                (λ p got'.
                  let p_same : p ≡ profile = ground arith in
                  subst (λ z. q ≢ z.name) (sym p_same) other) in
            let held'' : objects.find (object_key multierr r n ns raw)
                  (reconcile multierr r name w).world.store
                ≡ some o' =
              ap
                (λ z.
                  objects.find (object_key multierr r n ns z)
                    (reconcile multierr r name w).world.store)
                (sym same)
              ∙ held' in
            let same_object : o ≡ o' = ground arith in
            let owners : some q ≡ some profile.name =
              sym carries ∙ ap (λ z. lookup resource_owner_label z.labels) same_object ∙ carries' in
            other (ground arith)
      ]
