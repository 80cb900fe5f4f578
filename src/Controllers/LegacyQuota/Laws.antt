-- ===== src/Controllers/LegacyQuota/Laws.antt =====
-- controllers/legacy_resource_quota_controller.go: what a reconciliation leaves in a namespace.
use mathlib.Core.Path.{subst}
use appuio_cloud_agent.Base.{
  String, String-cases, if_then, if_else, false, ◌≡◌, refl, sym, ap, ◌∙◌, inl, inr, [], ◌∷◌, ◌++◌,
  append-nil, Option, none, some, Dict, IsMap, lookup, eq_iff, All, if◌then◌else◌, arith,
}
use appuio_cloud_agent.Kube.{Error, ok, Namespace, or_given, Multierr, combine-none}
use appuio_cloud_agent.Controllers.LegacyQuota.{
  QuotaSpec, LimitRange, LegacyResourceQuotaReconciler, World, Outcome, storage_quotas, set_limit,
  calls, failed_quota, apply_quotas, apply_limits, reported, on_organization, if_labelled,
  on_namespace, reconcile,
}
use appuio_cloud_agent.Controllers.LegacyQuota.Put.{
  IsApplied, IsLimited, failed_quota-nil, failed_limit-nil, set_limit-ok, calls-true, put-IsApplied,
  put, setter, hard_of, empty_quota,
}

module _ {Q S L : Type 0} (multierr : Multierr) (r : LegacyResourceQuotaReconciler Q S L) where
  open r use {quotas, limits}

  -- The quotas of the other names stay as they are.
  apply_quotas-find_ne :
      (ns : Namespace) (specs : Dict (QuotaSpec Q S)) (s : quotas.Store) (name : String)
      → lookup name specs ≡ none
      → quotas.find (ns.name, name) (apply_quotas multierr r ns specs s).0
        ≡ quotas.find (ns.name, name) s
  unfolding apply_quotas
  apply_quotas-find_ne ns [] s name h = refl
  apply_quotas-find_ne ns ((i, spec) ∷ specs) s name h = elim (String-cases i name) [
    | inl same ↦
        let e : some spec ≡ none = rw ((eq_iff i name).1 same) at h in absurd (ground arith)
    | inr other ↦
        apply_quotas-find_ne ns specs (put multierr r ns i spec s).0 name (rw other at h)
        ∙ quotas.create_or_update-find_ne (ns.name, i) (ns.name, name) (empty_quota multierr r)
            (setter multierr r ns i spec) s
            (λ e. let same : i ≡ name = ap (λ z. z.1) e in absurd (ground (arith, eq_iff i name)))
  ]

  apply_quotas-IsApplied :
      (ns : Namespace) (specs : Dict (QuotaSpec Q S)) (s : quotas.Store)
      → IsMap specs
      → (apply_quotas multierr r ns specs s).1 ≡ []
      → All (IsApplied multierr r ns (apply_quotas multierr r ns specs s).0) specs
  unfolding apply_quotas
  apply_quotas-IsApplied ns [] s distinct h = tt
  apply_quotas-IsApplied ns ((name, spec) ∷ specs) s (new, distinct) h =
      let (storage_fine, h') = append-nil (storage_quotas multierr r name ns).1 _ h in
      let (hard_none, h'') =
        append-nil
          (if calls multierr r (quotas.get (ns.name, name) s)
            then (hard_of multierr r ns name spec).1
            else [])
          _ h' in
      let (put_none, later) =
        append-nil (failed_quota multierr r name (put multierr r ns name spec s).1) _ h'' in
      let put_fine = failed_quota-nil multierr r name (put multierr r ns name spec s).1 put_none in
      let called =
        calls-true multierr r (quotas.get (ns.name, name) s) (put multierr r ns name spec s).1
          (λ f fails other.
            quotas.create_or_update-get (ns.name, name) (empty_quota multierr r)
              (setter multierr r ns name spec) s f fails other)
          put_fine in
      let hard_fine =
        sym (if_then (calls multierr r (quotas.get (ns.name, name) s)) _ _ called) ∙ hard_none in
      let (o, there, unmoved, controlled, quantities) =
        put-IsApplied multierr r ns name spec s put_fine storage_fine hard_fine in
      (
        (
          o,
          apply_quotas-find_ne ns specs (put multierr r ns name spec s).0 name new ∙ there,
          unmoved,
          controlled,
          quantities,
        ),
        apply_quotas-IsApplied ns specs (put multierr r ns name spec s).0 distinct later,
      )

  abbrev empty_limit : LimitRange L
  empty_limit = record { spec = r.no_limit; owners = [] }

  apply_limits-IsLimited :
      (ns : Namespace) (s : limits.Store)
      → (apply_limits multierr r ns s).1 ≡ []
      → IsLimited multierr r ns (apply_limits multierr r ns s).0
  unfolding apply_limits
  apply_limits-IsLimited ns s h =
      let fine =
        failed_limit-nil multierr r
          (limits.create_or_update (ns.name, r.limit_range_name) empty_limit
            (set_limit multierr r ns) s).1
          h in
      let (new, made, there) =
        limits.create_or_update-find (ns.name, r.limit_range_name) empty_limit
          (set_limit multierr r ns) s fine in
      let (same, controlled) =
        set_limit-ok multierr r ns
          (or_given empty_limit (limits.find (ns.name, r.limit_range_name) s)) new made in
      (new, there, same, controlled)

  reported-none :
      (w : World multierr r) (e : Option Error)
      → (reported multierr r w e).error ≡ none
      → (e ≡ none) × ((reported multierr r w e).world ≡ w)
  reported-none w none h = (refl, refl)
  reported-none w (some e) h = absurd (ground arith)

  -- After a reconciliation without an error, a namespace of an organization has every default quota,
  -- with the quantities that its annotations name in place of the default ones, and the default
  -- limit range.
  pub reconcile-IsApplied :
      (name organization : String) (ns : Namespace) (w : World multierr r)
      → r.get_namespace name ≡ ok ns
      → ns.deleting ≡ false
      → lookup r.organization_label ns.labels ≡ some organization
      → IsMap r.default_resource_quotas
      → (reconcile multierr r name w).error ≡ none
      → All
          (IsApplied multierr r ns (reconcile multierr r name w).world.quota_store)
          r.default_resource_quotas
        × IsLimited multierr r ns (reconcile multierr r name w).world.limit_store
  unfolding reconcile
  reconcile-IsApplied name organization ns w got live labelled distinct =
      subst Served
        (sym (
          ap (λ x. on_namespace multierr r x w) got
          ∙ if_else ns.deleting _ _ live
          ∙ ap (λ x. if_labelled multierr r x ns w) labelled))
        served
    where
      Served : Outcome multierr r → Type 0
      Served out =
          out.error ≡ none
          → All (IsApplied multierr r ns out.world.quota_store) r.default_resource_quotas
            × IsLimited multierr r ns out.world.limit_store

      served : Served (on_organization multierr r ns w)
      served fine =
          let (s, es) = apply_quotas multierr r ns r.default_resource_quotas w.quota_store in
          let (t, fs) = apply_limits multierr r ns w.limit_store in
          let w' : World multierr r = record { quota_store = s; limit_store = t } in
          let (none_left, same) = reported-none w' (multierr.combine (es ++ fs)) fine in
          let (quotas_fine, limits_fine) =
            append-nil es fs (combine-none multierr (es ++ fs) none_left) in
          subst
            (λ z.
              All (IsApplied multierr r ns z.quota_store) r.default_resource_quotas
              × IsLimited multierr r ns z.limit_store)
            (sym same)
            (
              apply_quotas-IsApplied ns r.default_resource_quotas w.quota_store distinct
                  quotas_fine,
              apply_limits-IsLimited ns w.limit_store limits_fine,
            )
