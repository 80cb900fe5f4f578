-- ===== src/Controllers/ProfileApply/Content.antt =====
-- controllers/zoneusageprofileapply_controller.go: the objects that a reconciliation leaves are the
-- resources of the profile.
use mathlib.Core.Path.{subst}
use appuio_cloud_agent.Base.{
  String, Bool-cases, not, ◌≡◌, refl, sym, ◌∙◌, inl, inr, List, [], ◌∷◌, Option, none, some, Dict,
  lookup, ◌==◌, if_then, if_else, arith,
}
use appuio_cloud_agent.Kube.{Error, Result, ok, err, ◌>>=◌, Multierr, Namespace}
use appuio_cloud_agent.Controllers.ProfileApply.{
  resource_owner_label, Object, ZoneUsageProfileApplyReconciler, transform, labelled_as, labelled,
  set_labels, mutate, owned,
}
use appuio_cloud_agent.Controllers.ProfileApply.Laws.{mutate-ok}

module _ {C R : Type 0} (multierr : Multierr) (r : ZoneUsageProfileApplyReconciler C R) where
  open r use {objects}

  -- `v` is what the transformers, one after the other, make of `u`.
  abbrev pub IsTransformed :
      List (Object C → Namespace → Object C × Option Error)
      → Namespace
      → Object C
      → Object C
      → Type 0
  IsTransformed [] ns u v = u ≡ v
  IsTransformed (t ∷ ts) ns u v = IsTransformed ts ns (t u ns).0 v

  transform-IsTransformed :
      (ts : List (Object C → Namespace → Object C × Option Error)) (ns : Namespace) (u : Object C)
      → IsTransformed ts ns u (transform multierr r ts ns u)
  transform-IsTransformed [] ns u = refl
  transform-IsTransformed (t ∷ ts) ns u = transform-IsTransformed ts ns (t u ns).0

  -- The object is the resource under the name in the namespace, with the profile as its owner, as the
  -- transformers leave it, but for its labels; and these name the profile.
  abbrev pub IsMade : String → String → Namespace → Object C → Object C → Type 0
  IsMade p name ns raw o =
      (u : Object C) × (r.set_controller_reference p
          (record raw { namespace = ns.name; name = name })
        ≡ ok u)
      × ((v : Object C) × IsTransformed r.transformers ns u v
          × (o ≡ record v { labels = o.labels })
          × (lookup "cloud-agent.appuio.io/usage-profile" o.labels ≡ some p))

  labelled_as-set_labels :
      (name : String) (ns : Namespace) (p : String) (lbls : Dict String) (u new : Object C)
      (o : Option String)
      → labelled_as multierr r p o name ns lbls u ≡ ok new
      → set_labels multierr r p lbls u ≡ new
  labelled_as-set_labels name ns p lbls u new none h = ground arith
  labelled_as-set_labels name ns p lbls u new (some q) h = elim (Bool-cases (not (q == p))) [
    | inl other ↦ let e = sym (if_then (not (q == p)) _ _ other) ∙ h in absurd (ground arith)
    | inr same ↦ let e = sym (if_else (not (q == p)) _ _ same) ∙ h in ground arith
  ]

  pub mutate-IsMade :
      (name : String) (ns : Namespace) (raw : Object C) (p : String) (o new : Object C)
      → mutate multierr r name ns raw p o ≡ ok new
      → IsMade p name ns raw new
  mutate-IsMade name ns raw p o new h =
      go (r.set_controller_reference p (record raw { namespace = ns.name; name = name })) refl h
    where
      go :
          (m : Result (Object C))
          → r.set_controller_reference p (record raw { namespace = ns.name; name = name }) ≡ m
          → (owned multierr r m >>= λ u.
              labelled multierr r p name ns o.labels (transform multierr r r.transformers ns u))
            ≡ ok new
          → IsMade p name ns raw new
      go (err e) is made = absurd (ground arith)
      go (ok u) is made =
          let v = transform multierr r r.transformers ns u in
          let same =
            labelled_as-set_labels name ns p o.labels v new (lookup resource_owner_label o.labels)
              made in
          (
            u,
            is,
            (
              v,
              transform-IsTransformed r.transformers ns u,
              subst (λ (z : Object C). z ≡ record v { labels = z.labels }) same refl,
              mutate-ok multierr r name ns raw p o new h,
            ),
          )
