-- ===== src/Controllers/ProfileApply/Laws.antt =====
-- controllers/zoneusageprofileapply_controller.go: which objects a profile owns afterwards.
use mathlib.Core.Path.{subst}
use appuio_cloud_agent.Base.{
  String, String-cases, Bool-cases, if_then, if_else, not, ◌&&◌, ◌≡◌, ◌≢◌, refl, sym, ap, ◌∙◌, ◌⊎◌,
  inl, inr, Option, none, some, Dict, lookup, lookup-insert, ◌==◌, eq_iff, arith,
}
use appuio_cloud_agent.Kube.{Error, Result, ok, err, ◌>>=◌, or_given, Multierr, Namespace}
use appuio_cloud_agent.Controllers.ProfileApply.{
  resource_owner_label, gvk_beq, ObjectKey, Object, ZoneUsageProfileApplyReconciler, transform,
  labelled_as, empty_object, set_labels, labelled, owned, mutate, object_key,
}
use appuio_cloud_agent.Controllers.ProfileApply.Watches.{gvk_beq_iff}

pub key_cases : (k j : ObjectKey) → (k ≡ j) ⊎ (k ≢ j)
key_cases k j =
    elim (Bool-cases (gvk_beq k.gvk j.gvk && (k.namespace == j.namespace && k.name == j.name))) [
      | inl same ↦ inl (
          ground
            (arith, gvk_beq_iff k.gvk j.gvk, eq_iff k.namespace j.namespace, eq_iff k.name j.name))
      | inr other ↦ inr (λ e. absurd (
          ground
            (arith, gvk_beq_iff k.gvk j.gvk, eq_iff k.namespace j.namespace, eq_iff k.name j.name)))
    ]

module _ {C R : Type 0} (multierr : Multierr) (r : ZoneUsageProfileApplyReconciler C R) where
  open r use {objects}

  -- The object under the key carries the label of the profile.
  abbrev pub IsOwned : String → ObjectKey → objects.Store → Type 0
  IsOwned p k s =
      (o : Object C) × (objects.find k s ≡ some o) × (lookup resource_owner_label o.labels ≡ some p)

  -- What `CreateOrUpdate` is called with.
  abbrev pub zero_of : String → Namespace → Object C → Object C
  zero_of name ns raw = empty_object multierr r name ns raw

  abbrev pub applied :
      String → Namespace → Object C → String → objects.Store → objects.Store × Option Error
  applied name ns raw p s =
      objects.create_or_update (object_key multierr r name ns raw) (zero_of name ns raw)
        (mutate multierr r name ns raw p) s

  -- An object that carries another profile's label makes the function fail.
  labelled-some :
      (name : String) (ns : Namespace) (p q : String) (lbls : Dict String) (u : Object C)
      (o : Option String)
      → o ≡ some q
      → q ≢ p
      → (e : Error) × (labelled_as multierr r p o name ns lbls u ≡ err e)
  labelled-some name ns p q lbls u none h other = absurd (ground arith)
  labelled-some name ns p q lbls u (some x) h other =
      (_, if_then (not (x == p)) _ _ (ground (arith, eq_iff x p)))

  mutate_fails :
      (name : String) (ns : Namespace) (raw : Object C) (p q : String) (o : Object C)
      → lookup resource_owner_label o.labels ≡ some q
      → q ≢ p
      → (e : Error) × (mutate multierr r name ns raw p o ≡ err e)
  mutate_fails name ns raw p q o carries other = go (
      owned multierr r
        (r.set_controller_reference p (record raw { namespace = ns.name; name = name })))
    where
      go :
          (m : Result (Object C))
          → (e : Error) × ((m >>= λ u.
                labelled multierr r p name ns o.labels (transform multierr r r.transformers ns u))
              ≡ err e)
      go (err e) = (e, refl)
      go (ok u) =
          labelled-some name ns p q o.labels (transform multierr r r.transformers ns u)
            (lookup resource_owner_label o.labels) carries other

  set_labels-lookup :
      (p : String) (lbls : Dict String) (u new : Object C)
      → ok (set_labels multierr r p lbls u) ≡ ok new
      → lookup resource_owner_label new.labels ≡ some p
  set_labels-lookup p lbls u new h =
      let same : set_labels multierr r p lbls u ≡ new = ground arith in
      subst (λ x. lookup resource_owner_label x.labels ≡ some p) same
        (lookup-insert resource_owner_label resource_owner_label p lbls)

  -- What the function returns carries the profile's label.
  labelled_as-ok :
      (name : String) (ns : Namespace) (p : String) (lbls : Dict String) (u new : Object C)
      (o : Option String)
      → labelled_as multierr r p o name ns lbls u ≡ ok new
      → lookup resource_owner_label new.labels ≡ some p
  labelled_as-ok name ns p lbls u new none h = set_labels-lookup p lbls u new h
  labelled_as-ok name ns p lbls u new (some x) h = elim (String-cases x p) [
    | inl agree ↦
        set_labels-lookup p lbls u new
          (sym (if_else (not (x == p)) _ _ (ground (arith, eq_iff x p))) ∙ h)
    | inr other ↦
        let (e, fails) =
          labelled-some name ns p x lbls u (some x) refl
            (λ same. absurd (ground (arith, eq_iff x p))) in
        let h' : err e ≡ ok new = sym fails ∙ h in absurd (ground arith)
  ]

  pub mutate-ok :
      (name : String) (ns : Namespace) (raw : Object C) (p : String) (o new : Object C)
      → mutate multierr r name ns raw p o ≡ ok new
      → lookup resource_owner_label new.labels ≡ some p
  mutate-ok name ns raw p o new = go (
      owned multierr r
        (r.set_controller_reference p (record raw { namespace = ns.name; name = name })))
    where
      go :
          (m : Result (Object C))
          → (m >>= λ u.
              labelled multierr r p name ns o.labels (transform multierr r r.transformers ns u))
            ≡ ok new
          → lookup resource_owner_label new.labels ≡ some p
      go (err e) h = absurd (ground arith)
      go (ok u) h =
          labelled_as-ok name ns p o.labels (transform multierr r r.transformers ns u) new
            (lookup resource_owner_label o.labels) h

  -- An object of another profile is left alone by one call.
  pub applied-find_other :
      (name : String) (ns : Namespace) (raw : Object C) (p q : String) (s : objects.Store)
      (k : ObjectKey) (o : Object C)
      → objects.find k s ≡ some o
      → lookup resource_owner_label o.labels ≡ some q
      → q ≢ p
      → objects.find k (applied name ns raw p s).0 ≡ some o
  applied-find_other name ns raw p q s k o held carries other =
      elim (key_cases (object_key multierr r name ns raw) k) [
        | inr ne ↦
            objects.create_or_update-find_ne (object_key multierr r name ns raw) k
              (zero_of name ns raw) (mutate multierr r name ns raw p) s ne
            ∙ held
        | inl same ↦
            let held' : objects.find (object_key multierr r name ns raw) s ≡ some o =
              ap (λ j. objects.find j s) same ∙ held in
            let (e, fails) = mutate_fails name ns raw p q o carries other in
            let (_, kept) =
              objects.create_or_update-failed (object_key multierr r name ns raw)
                (zero_of name ns raw) (mutate multierr r name ns raw p) s e
                (ap (λ x. mutate multierr r name ns raw p (or_given (zero_of name ns raw) x)) held'
                  ∙ fails) in
            ap (λ j. objects.find j (applied name ns raw p s).0) (sym same) ∙ kept ∙ held'
      ]

  -- An object of the profile stays one, also if a call fails.
  pub applied-IsOwned_stays :
      (name : String) (ns : Namespace) (raw : Object C) (p : String) (s : objects.Store)
      (k : ObjectKey)
      → IsOwned p k s
      → IsOwned p k (applied name ns raw p s).0
  applied-IsOwned_stays name ns raw p s k (o, held, carries) =
      elim (key_cases (object_key multierr r name ns raw) k) [
        | inr ne ↦ (
          o,
          objects.create_or_update-find_ne (object_key multierr r name ns raw) k
                (zero_of name ns raw) (mutate multierr r name ns raw p) s ne
              ∙ held,
          carries,
        )
        | inl same ↦
            subst (λ j. IsOwned p j (applied name ns raw p s).0) same
              (elim (objects.create_or_update-find_or (object_key multierr r name ns raw)
                (zero_of name ns raw) (mutate multierr r name ns raw p) s) [
                  | inl old ↦ (o, old ∙ ap (λ j. objects.find j s) same ∙ held, carries)
                  | inr (new, made, there) ↦ (
                    new,
                    there,
                    mutate-ok name ns raw p
                        (or_given (zero_of name ns raw)
                          (objects.find (object_key multierr r name ns raw) s))
                        new made,
                  )
                ])
      ]

  -- A call without an error leaves an object of the profile.
  pub applied-IsOwned :
      (name : String) (ns : Namespace) (raw : Object C) (p : String) (s : objects.Store)
      → (applied name ns raw p s).1 ≡ none
      → IsOwned p (object_key multierr r name ns raw) (applied name ns raw p s).0
  applied-IsOwned name ns raw p s fine =
      let (new, made, there) =
        objects.create_or_update-find (object_key multierr r name ns raw) (zero_of name ns raw)
          (mutate multierr r name ns raw p) s fine in
      (
        new,
        there,
        mutate-ok name ns raw p
            (or_given (zero_of name ns raw) (objects.find (object_key multierr r name ns raw) s))
            new made,
      )
