-- ===== src/Controllers/ProfileApply/Success.antt =====
-- controllers/zoneusageprofileapply_controller.go: a reconciliation succeeds where the calls do.

use appuio_cloud_agent.Base.{
  String, Bool-cases, if_else, true, false, not, any, ◌&&◌, ◌≡◌, refl, sym, ap, ◌∙◌, inl, inr, List,
  [], ◌∷◌, Option, none, some, Dict, lookup, All, ◌==◌, eq_iff, arith,
}
use appuio_cloud_agent.Kube.{Error, ok, ◌>>=◌, or_given, Multierr, Namespace, Works}
use appuio_cloud_agent.Controllers.ProfileApply.{
  resource_owner_label, GroupVersionKind, gvk_beq, is_empty, ObjectKey, Object, Profile,
  WatchTracker, ZoneUsageProfileApplyReconciler, World, after_watch, ensure_watch, transform,
  labelled_as, labelled, mutate, owned, object_key, watch_error, apply_converted,
  apply_resource_to_namespace, Progress, with_error, apply_all, visit, on_profile, on_namespaces,
  reconcile,
}
use appuio_cloud_agent.Controllers.ProfileApply.Laws.{key_cases, zero_of, applied, mutate-ok}
use appuio_cloud_agent.Controllers.ProfileApply.Kept.{is_skipped, apply_keeps}

after_watch_works :
    (g : GroupVersionKind) (t : WatchTracker) (x : Option Error)
    → x ≡ none
    → (after_watch g t x).1 ≡ none
after_watch_works g t none h = refl
after_watch_works g t (some e) h = absurd (ground arith)

ensure_watch_works :
    (watch : GroupVersionKind → Option Error) (g : GroupVersionKind) (t : WatchTracker)
    → is_empty g ≡ false
    → watch g ≡ none
    → (ensure_watch true watch g t).1 ≡ none
unfolding ensure_watch
ensure_watch_works watch g t set fine = elim (Bool-cases (any (gvk_beq g) t.tried)) [
  | inl tried ↦ rw (set, tried) refl
  | inr untried ↦ rw (set, untried) (after_watch_works g t (watch g) fine)
]

module _ {C R : Type 0} (multierr : Multierr) (r : ZoneUsageProfileApplyReconciler C R) where
  open r use {objects}

  -- No object is labelled as another profile's.
  abbrev pub IsUncontested : String → objects.Store → Type 0
  IsUncontested p s =
      (k : ObjectKey) (o : Object C) (q : String)
      → objects.find k s ≡ some o
      → lookup resource_owner_label o.labels ≡ some q
      → q ≡ p

  -- The resource converts, to an object with a kind.
  abbrev pub IsConvertible : String × R → Type 0
  IsConvertible (name, x) =
      (raw : Object C) × (r.to_unstructured x ≡ ok raw) × (is_empty raw.gvk ≡ false)

  -- The calls do not fail, but for what `Works` excepts.
  abbrev pub IsWorking : Type 0
  IsWorking =
      (r.is_ready ≡ true)
      × ((g : GroupVersionKind) → r.watch g ≡ none)
      × ((p : String) (u : Object C) → (u' : Object C) × (r.set_controller_reference p u ≡ ok u'))

  module _ (works : Works objects) (working : IsWorking) (profile : Profile R) where
    labelled_as_works :
        (name : String) (ns : Namespace) (lbls : Dict String) (u : Object C) (o : Option String)
        → ((q : String) → o ≡ some q → q ≡ profile.name)
        → (new : Object C) × (labelled_as multierr r profile.name o name ns lbls u ≡ ok new)
    labelled_as_works name ns lbls u none h = (_, refl)
    labelled_as_works name ns lbls u (some q) h =
        (_, if_else (not (q == profile.name)) _ _ (ap not ((eq_iff q profile.name).1 (h q refl))))

    mutate_works :
        (name : String) (ns : Namespace) (raw o : Object C)
        → ((q : String) → lookup resource_owner_label o.labels ≡ some q → q ≡ profile.name)
        → (new : Object C) × (mutate multierr r name ns raw profile.name o ≡ ok new)
    mutate_works name ns raw o own =
        let (u, set) = working.2 profile.name (record raw { namespace = ns.name; name = name }) in
        let (new, made) =
          labelled_as_works name ns o.labels (transform multierr r r.transformers ns u)
            (lookup resource_owner_label o.labels) own in
        (
          new,
          ap
                (λ x. owned multierr r x >>= λ u'.
                  labelled multierr r profile.name name ns o.labels
                    (transform multierr r r.transformers ns u'))
                set
              ∙ made,
        )

    existing-own :
        (name : String) (ns : Namespace) (raw : Object C) (s : objects.Store)
        (f : Option (Object C))
        → ((o : Object C) (q : String)
            → f ≡ some o
            → lookup resource_owner_label o.labels ≡ some q
            → q ≡ profile.name)
        → (q : String)
        → lookup resource_owner_label (or_given (zero_of multierr r name ns raw) f).labels ≡ some q
        → q ≡ profile.name
    existing-own name ns raw s none own q h = absurd (ground arith)
    existing-own name ns raw s (some o) own q h = own o q refl h

    pub applied_works :
        (name : String) (ns : Namespace) (raw : Object C) (s : objects.Store)
        → IsUncontested profile.name s
        → (applied multierr r name ns raw profile.name s).1 ≡ none
    applied_works name ns raw s own =
        let k = object_key multierr r name ns raw in
        let (new, made) =
          mutate_works name ns raw (or_given (zero_of multierr r name ns raw) (objects.find k s))
            (existing-own name ns raw s (objects.find k s) (own k)) in
        works.create_or_update_works k (zero_of multierr r name ns raw)
          (mutate multierr r name ns raw profile.name) s new made

    pub applied-IsUncontested :
        (name : String) (ns : Namespace) (raw : Object C) (s : objects.Store)
        → IsUncontested profile.name s
        → IsUncontested profile.name (applied multierr r name ns raw profile.name s).0
    applied-IsUncontested name ns raw s own k o q held carries =
        let j = object_key multierr r name ns raw in
        let f = mutate multierr r name ns raw profile.name in
        let zero = zero_of multierr r name ns raw in
        elim (key_cases j k) [
          | inr ne ↦
              own k o q (sym (objects.create_or_update-find_ne j k zero f s ne) ∙ held) carries
          | inl same ↦
              let held' : objects.find j (applied multierr r name ns raw profile.name s).0
                  ≡ some o =
                ap (λ z. objects.find z (applied multierr r name ns raw profile.name s).0) same
                ∙ held in
              elim (objects.create_or_update-find_or j zero f s) [
                | inl old ↦ own j o q (sym old ∙ held') carries
                | inr (new, made, there) ↦
                    let equal : new ≡ o =
                      (let e : some new ≡ some o = sym there ∙ held' in ground arith) in
                    let label =
                      mutate-ok multierr r name ns raw profile.name
                        (or_given zero (objects.find j s)) new made in
                    let labels : some q ≡ some profile.name =
                      sym carries
                      ∙ ap (λ z. lookup resource_owner_label z.labels) (sym equal)
                      ∙ label in
                    ground arith
              ]
        ]

    watch_works :
        (g : GroupVersionKind) (t : WatchTracker)
        → is_empty g ≡ false
        → (ensure_watch r.is_ready r.watch g t).1 ≡ none
    watch_works g t set =
        ap (λ b. (ensure_watch b r.watch g t).1) working.0
        ∙ ensure_watch_works r.watch g t set (working.1 g)

    apply_works :
        (name : String) (ns : Namespace) (x : R) (w : World multierr r)
        → IsConvertible (name, x)
        → IsUncontested profile.name w.store
        → (apply_resource_to_namespace multierr r name ns x profile.name w).1 ≡ none
    unfolding apply_resource_to_namespace
    apply_works name ns x w (raw, converts, set) own =
        ap (λ c. (apply_converted multierr r name ns c profile.name w).1) converts
        ∙ ap (λ e. watch_error multierr r e (applied multierr r name ns raw profile.name w.store).1)
            (watch_works raw.gvk w.tracker set)
        ∙ applied_works name ns raw w.store own

    -- No error is reported from an uncontested store.
    abbrev pub IsClean : (World multierr r → Progress multierr r) → Type 0
    IsClean rest =
        (w : World multierr r) → IsUncontested profile.name w.store → (rest w).errors ≡ []

    apply_all-IsClean :
        (ns : Namespace) (xs : Dict R) (rest : World multierr r → Progress multierr r)
        → All IsConvertible xs
        → IsClean rest
        → IsClean (apply_all multierr r profile.name ns xs rest)
    unfolding apply_all
    apply_all-IsClean ns [] rest convertible clean w own = clean w own
    apply_all-IsClean ns ((name, x) ∷ xs) rest (convertible, later) clean w own =
        let (w', e) = apply_resource_to_namespace multierr r name ns x profile.name w in
        ap
          (λ z.
            (with_error multierr r name ns.name z
              (apply_all multierr r profile.name ns xs rest w')).errors)
          (apply_works name ns x w convertible own)
        ∙ apply_all-IsClean ns xs rest later clean w' (
            apply_keeps multierr r profile (IsUncontested profile.name) applied-IsUncontested name
              ns x w own)

    visit-IsClean :
        (nss : List Namespace)
        → All IsConvertible profile.resources
        → IsClean (visit multierr r profile nss)
    unfolding visit
    visit-IsClean [] convertible w own = refl
    visit-IsClean (ns ∷ nss) convertible w own = elim (Bool-cases (ns.deleting && r.is_past ns)) [
      | inl past ↦ rw past (visit-IsClean nss convertible w own)
      | inr live ↦ rw live (
          apply_all-IsClean ns profile.resources (visit multierr r profile nss) convertible
            (visit-IsClean nss convertible) w own)
    ]

    pub reconcile_works :
        (name : String) (w : World multierr r) (nss : List Namespace)
        → is_skipped multierr r name ≡ false
        → r.get_profile name ≡ ok profile
        → r.list_namespaces ≡ ok nss
        → All IsConvertible profile.resources
        → IsUncontested profile.name w.store
        → (reconcile multierr r name w).error ≡ none
    unfolding reconcile
    reconcile_works name w nss reads got listed convertible own =
        ap (λ o. o.error)
          (if_else (is_skipped multierr r name) _ _ reads
            ∙ ap (λ g. on_profile multierr r g w) got
            ∙ ap (λ l. on_namespaces multierr r profile l w) listed)
        ∙ ap multierr.combine (visit-IsClean nss convertible w own)
        ∙ multierr.combine-nil
