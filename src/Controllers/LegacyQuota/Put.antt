-- ===== src/Controllers/LegacyQuota/Put.antt =====
-- controllers/legacy_resource_quota_controller.go: one quota.
use mathlib.Core.Path.{subst}
use appuio_cloud_agent.Base.{
  String, Bool-cases, true, false, ◌≡◌, ◌≢◌, refl, sym, ap, inl, inr, List, [], Option, none, some,
  Dict, lookup, arith,
}
use appuio_cloud_agent.Kube.{
  Error, is_not_found, Result, ok, err, Namespace, ◌>>=◌, or_given, Multierr,
}
use appuio_cloud_agent.Controllers.LegacyQuota.{
  QuotaSpec, ResourceQuota, LimitRange, LegacyResourceQuotaReconciler, storage_quotas, hard_for,
  set_quota, set_limit, calls, failed_quota, failed_limit, with_hard,
}
use appuio_cloud_agent.Controllers.LegacyQuota.Hard.{
  IsStorage, storage_quotas-IsStorage, IsQuantityFor, hard_for-IsQuantity,
}

module _ {Q S L : Type 0} (multierr : Multierr) (r : LegacyResourceQuotaReconciler Q S L) where
  open r use {quotas, limits}

  -- The namespace was set as the controller of the owners.
  abbrev pub IsControlled : Namespace → List String → Type 0
  IsControlled ns owners = (os : List String) × (r.set_controller_reference ns.name os ≡ ok owners)

  -- The quota is in the namespace, with the quantities that the annotations name.
  abbrev pub IsApplied : Namespace → quotas.Store → String × QuotaSpec Q S → Type 0
  IsApplied ns s (name, spec) =
      (o : ResourceQuota Q S) × (quotas.find (ns.name, name) s ≡ some o)
      × (o.spec.rest ≡ spec.rest)
      × IsControlled ns o.owners
      × ((storage : Dict Q) × IsStorage multierr r name ns storage
          × ((k : String)
              → IsQuantityFor multierr r name ns storage k (lookup k spec.hard)
                  (lookup k o.spec.hard)))

  abbrev pub IsLimited : Namespace → limits.Store → Type 0
  IsLimited ns s =
      (o : LimitRange L) × (limits.find (ns.name, r.limit_range_name) s ≡ some o)
      × (o.spec ≡ r.default_limit_range)
      × IsControlled ns o.owners

  pub failed_quota-nil :
      (name : String) (e : Option Error) → failed_quota multierr r name e ≡ [] → e ≡ none
  failed_quota-nil name none h = refl
  failed_quota-nil name (some e) h = absurd (ground arith)

  pub failed_limit-nil : (e : Option Error) → failed_limit multierr r e ≡ [] → e ≡ none
  failed_limit-nil none h = refl
  failed_limit-nil (some e) h = absurd (ground arith)

  set_quota-ok :
      (ns : Namespace) (spec : QuotaSpec Q S) (old new : ResourceQuota Q S)
      → set_quota multierr r ns spec old ≡ ok new
      → (new.spec ≡ spec) × IsControlled ns new.owners
  set_quota-ok ns spec old new = go (r.set_controller_reference ns.name old.owners) refl
    where
      go :
          (x : Result (List String))
          → r.set_controller_reference ns.name old.owners ≡ x
          → (x >>= λ os. ok (record { spec = spec; owners = os })) ≡ ok new
          → (new.spec ≡ spec) × IsControlled ns new.owners
      go (err e) same h = absurd (ground arith)
      go (ok os) same h =
          let made : record { spec = spec; owners = os } ≡ new = ground arith in
          subst (λ z. (z.spec ≡ spec) × IsControlled ns z.owners) made (refl, (old.owners, same))

  pub set_limit-ok :
      (ns : Namespace) (old new : LimitRange L)
      → set_limit multierr r ns old ≡ ok new
      → (new.spec ≡ r.default_limit_range) × IsControlled ns new.owners
  set_limit-ok ns old new = go (r.set_controller_reference ns.name old.owners) refl
    where
      go :
          (x : Result (List String))
          → r.set_controller_reference ns.name old.owners ≡ x
          → (x >>= λ os. ok (record { spec = r.default_limit_range; owners = os })) ≡ ok new
          → (new.spec ≡ r.default_limit_range) × IsControlled ns new.owners
      go (err e) same h = absurd (ground arith)
      go (ok os) same h =
          let made : record { spec = r.default_limit_range; owners = os } ≡ new = ground arith in
          subst (λ z. (z.spec ≡ r.default_limit_range) × IsControlled ns z.owners) made
            (refl, (old.owners, same))

  -- A call that made no error has called its function.
  pub calls-true :
      {A : Type 0} (x : Result A) (e : Option Error)
      → ((f : Error) → x ≡ err f → is_not_found f ≡ false → e ≢ none)
      → e ≡ none
      → calls multierr r x ≡ true
  calls-true (ok a) e h fine = refl
  calls-true (err f) e h fine = elim (Bool-cases (is_not_found f)) [
    | inl missing ↦ missing
    | inr other ↦ absurd (h f refl other fine)
  ]

  abbrev pub hard_of : Namespace → String → QuotaSpec Q S → Dict Q × List Error
  hard_of ns name spec = hard_for multierr r name ns (storage_quotas multierr r name ns).0 spec.hard

  abbrev pub empty_quota : ResourceQuota Q S
  empty_quota = record { spec = r.no_quota; owners = [] }

  abbrev pub setter :
      Namespace → String → QuotaSpec Q S → ResourceQuota Q S → Result (ResourceQuota Q S)
  setter ns name spec = set_quota multierr r ns (with_hard multierr r spec (hard_of ns name spec).0)

  -- What `CreateOrUpdate` does for one quota.
  abbrev pub put : Namespace → String → QuotaSpec Q S → quotas.Store → quotas.Store × Option Error
  put ns name spec s = quotas.create_or_update (ns.name, name) empty_quota (setter ns name spec) s

  pub put-IsApplied :
      (ns : Namespace) (name : String) (spec : QuotaSpec Q S) (s : quotas.Store)
      → (put ns name spec s).1 ≡ none
      → (storage_quotas multierr r name ns).1 ≡ []
      → (hard_of ns name spec).1 ≡ []
      → IsApplied ns (put ns name spec s).0 (name, spec)
  put-IsApplied ns name spec s fine storage_fine hard_fine =
      let (new, made, there) =
        quotas.create_or_update-find (ns.name, name) empty_quota (setter ns name spec) s fine in
      let (same, controlled) =
        set_quota-ok ns (with_hard multierr r spec (hard_of ns name spec).0)
          (or_given empty_quota (quotas.find (ns.name, name) s)) new made in
      (
        new,
        there,
        ap (λ z. z.rest) same,
        controlled,
        (
          (storage_quotas multierr r name ns).0,
          storage_quotas-IsStorage multierr r name ns storage_fine,
          λ k.
              subst
                (λ z.
                  IsQuantityFor multierr r name ns (storage_quotas multierr r name ns).0 k
                    (lookup k spec.hard) (lookup k z.hard))
                (sym same)
                (hard_for-IsQuantity multierr r name ns (storage_quotas multierr r name ns).0
                  spec.hard k hard_fine),
        ),
      )
