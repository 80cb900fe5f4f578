-- ===== src/Controllers/ZoneVersion/Laws.antt =====
-- controllers/zonek8sversion_controller.go: which zones are updated.
use Prim.Native.String.{◌++◌ as str_append}
use mathlib.Core.Path.{subst, sym}
use appuio_cloud_agent.Base.{
  String, ◌≡◌, ◌≢◌, refl, ap, ◌∙◌, List, [], ◌∷◌, Option, none, some, Dict, All, Any, String-cases,
  Option-cases, if_else, inl, inr, ◌⊎◌, ◌↔◌, ◌==◌, eq_iff, lookup, insert, lookup-insert, arith,
}
use appuio_cloud_agent.Kube.{Error, ok, Multierr}
use appuio_cloud_agent.Controllers.ZoneVersion.{
  Run, done, failed, panicked, Version, Zone, with_versions, ZoneK8sVersionReconciler, after_update,
  update_zone, update_zones, finish, versions, reconcile,
}

-- No name is listed twice.
abbrev pub IsDistinct : List Zone → Type 0
IsDistinct [] = Unit
IsDistinct (z ∷ zs) = All (λ y. y.name ≢ z.name) zs × IsDistinct zs

module _ (multierr : Multierr) (r : ZoneK8sVersionReconciler) (k8s ocp : Version) where
  open r use {zones}

  -- The text of a version, as the zone shows it.
  abbrev shown : Version → String
  shown v = str_append v.major (str_append "." v.minor)

  -- The features of the zone, with both versions in place, and all others as they were.
  abbrev pub HasVersions : Dict String → Dict String → Type 0
  HasVersions old new =
      (lookup "kubernetesVersion" new ≡ some (shown k8s))
      × (lookup "openshiftVersion" new ≡ some (shown ocp))
      × ((k : String)
          → (k ≡ "kubernetesVersion") ⊎ ((k ≡ "openshiftVersion") ⊎ (lookup k new ≡ lookup k old)))

  with_versions-HasVersions : (old : Dict String) → HasVersions old (with_versions k8s ocp old)
  with_versions-HasVersions old =
      let k8s_key : String = "kubernetesVersion" in
      let ocp_key : String = "openshiftVersion" in
      let inner = insert k8s_key (shown k8s) old in
      (
        lookup-insert ocp_key k8s_key (shown ocp) inner
            ∙ lookup-insert k8s_key k8s_key (shown k8s) old,
        lookup-insert ocp_key ocp_key (shown ocp) inner,
        λ k. elim (String-cases k k8s_key) [
          | inl is_k8s ↦ inl is_k8s
          | inr not_k8s ↦ elim (String-cases k ocp_key) [
            | inl is_ocp ↦ inr (inl is_ocp)
            | inr not_ocp ↦ inr (
                inr (
                  lookup-insert ocp_key k (shown ocp) inner
                  ∙ if_else (ocp_key == k) _ _ (ground (arith, eq_iff ocp_key k, eq_iff k ocp_key))
                  ∙ lookup-insert k8s_key k (shown k8s) old
                  ∙ if_else (k8s_key == k) _ _
                      (ground (arith, eq_iff k8s_key k, eq_iff k k8s_key))))
          ]
        ],
      )

  -- The zone has features, and what is held of it is the zone with both versions among them.
  abbrev pub IsUpdated : zones.Store → Zone → Type 0
  IsUpdated s z =
      (old new : Dict String) × (z.features ≡ some old)
      × HasVersions old new
      × (zones.find z.name s ≡ zones.kept (record z { features = some new }))

  abbrev loop : List Zone → zones.Store → zones.Store × Run (List Error)
  loop = update_zones multierr r k8s ocp

  abbrev written : Zone → Dict String → Zone
  written z features = record z { features = some (with_versions k8s ocp features) }

  loop-cons :
      (z : Zone) (zs : List Zone) (s : zones.Store) (features : Dict String)
      → z.features ≡ some features
      → loop (z ∷ zs) s
        ≡ after_update multierr r
            (loop zs (zones.update z.name (written z features) s).0)
            (zones.update z.name (written z features) s).1
  unfolding update_zones
  loop-cons z zs s features has =
      ap (λ o. update_zone multierr r k8s ocp z o (update_zones multierr r k8s ocp zs) s) has

  -- The loop panics at a zone without a map of features, and writes no later zone.
  loop_panics :
      (z : Zone) (zs : List Zone) (s : zones.Store)
      → z.features ≡ none
      → loop (z ∷ zs) s ≡ (s, panicked)
  unfolding update_zones
  loop_panics z zs s has =
      ap (λ o. update_zone multierr r k8s ocp z o (update_zones multierr r k8s ocp zs) s) has

  abbrev pub HasFeatures : Zone → Type 0
  HasFeatures z = (features : Dict String) × (z.features ≡ some features)

  after_update-nil :
      (x : zones.Store × Run (List Error)) (e : Option Error)
      → (after_update multierr r x e).1 ≡ done []
      → (e ≡ none) × (x.1 ≡ done [])
  after_update-nil (s, done es) none h = (refl, h)
  after_update-nil (s, done es) (some f) h = absurd (ground arith)
  after_update-nil (s, failed f) e h = absurd (ground arith)
  after_update-nil (s, panicked) e h = absurd (ground arith)

  -- Zones of other names are left alone.
  loop-find_ne :
      (k : String) (zs : List Zone) (s : zones.Store)
      → All HasFeatures zs
      → All (λ y. y.name ≢ k) zs
      → zones.find k (loop zs s).0 ≡ zones.find k s
  unfolding update_zones
  loop-find_ne k [] s has others = refl
  loop-find_ne k (z ∷ zs) s ((features, e), has) (other, others) =
      ap (λ x. zones.find k x.0) (loop-cons z zs s features e)
      ∙ loop-find_ne k zs _ has others
      ∙ zones.update-find_ne z.name k (written z features) s other

  loop-IsUpdated :
      (zs : List Zone) (s : zones.Store)
      → All HasFeatures zs
      → IsDistinct zs
      → (loop zs s).1 ≡ done []
      → All (IsUpdated (loop zs s).0) zs
  loop-IsUpdated [] s has distinct fine = tt
  loop-IsUpdated (z ∷ zs) s ((features, e), has) (others, distinct) fine =
      let u = zones.update z.name (written z features) s in
      let step = loop-cons z zs s features e in
      let (this_fine, rest_fine) =
        after_update-nil (loop zs u.0) u.1 (sym (ap (λ x. x.1) step) ∙ fine) in
      subst (λ x. All (IsUpdated x.0) (z ∷ zs)) (sym step)
        (
          (
            features,
            with_versions k8s ocp features,
            e,
            with_versions-HasVersions features,
            loop-find_ne z.name zs u.0 has others
                ∙ zones.update-find z.name (written z features) s this_fine,
          ),
          loop-IsUpdated zs u.0 has distinct rest_fine,
        )

  finish-nil :
      (x : zones.Store × Run (List Error)) → (finish multierr r x).1 ≡ done none → x.1 ≡ done []
  finish-nil (s, done []) h = refl
  finish-nil (s, done (e ∷ es)) h = absurd (multierr.combine-cons e es (ground arith))
  finish-nil (s, failed e) h = absurd (ground arith)
  finish-nil (s, panicked) h = absurd (ground arith)

  -- When both versions can be found out, the listed zones all have a map of features and names of
  -- their own, and the reconciliation returns no error, each of them was updated: its features show
  -- both versions under their keys, and are otherwise as they were.
  pub reconcile-IsUpdated :
      (zs : List Zone) (s : zones.Store)
      → versions multierr r ≡ done (ocp, k8s)
      → r.list_zones s ≡ ok zs
      → All HasFeatures zs
      → IsDistinct zs
      → (reconcile multierr r s).1 ≡ done none
      → All (IsUpdated (reconcile multierr r s).0) zs
  unfolding reconcile
  reconcile-IsUpdated zs s found listed has distinct fine =
      let all : reconcile multierr r s ≡ finish multierr r (loop zs s) = rw (found, listed) refl in
      let fine' = finish-nil (loop zs s) (sym (ap (λ x. x.1) all) ∙ fine) in
      subst (λ x. All (IsUpdated x.0) zs) (sym all) (loop-IsUpdated zs s has distinct fine')

  after_update-panicked_iff :
      (x : zones.Store × Run (List Error)) (e : Option Error)
      → ((after_update multierr r x e).1 ≡ panicked) ↔ (x.1 ≡ panicked)
  after_update-panicked_iff (s, done es) e =
      (λ h. absurd (ground arith), λ h. absurd (ground arith))
  after_update-panicked_iff (s, failed f) e =
      (λ h. absurd (ground arith), λ h. absurd (ground arith))
  after_update-panicked_iff (s, panicked) e = (λ h. refl, λ h. refl)

  finish-panicked_iff :
      (x : zones.Store × Run (List Error)) → ((finish multierr r x).1 ≡ panicked) ↔ (x.1 ≡ panicked)
  finish-panicked_iff (s, done es) = (λ h. absurd (ground arith), λ h. absurd (ground arith))
  finish-panicked_iff (s, failed f) = (λ h. absurd (ground arith), λ h. absurd (ground arith))
  finish-panicked_iff (s, panicked) = (λ h. refl, λ h. refl)

  -- The zone has no map of features.
  abbrev pub IsBare : Zone → Type 0
  IsBare z = z.features ≡ none

  loop-panicked_iff :
      (zs : List Zone) (s : zones.Store) → ((loop zs s).1 ≡ panicked) ↔ Any IsBare zs
  unfolding update_zones
  loop-panicked_iff [] s = (λ h. absurd (ground arith), λ h. absurd h)
  loop-panicked_iff (z ∷ zs) s = elim (Option-cases z.features) [
    | inl bare ↦ (λ h. inl bare, λ h. ap (λ x. x.1) (loop_panics z zs s bare))
    | inr (features, has) ↦
        (let u = zones.update z.name (written z features) s in
          let step = ap (λ x. x.1) (loop-cons z zs s features has) in
          let this = after_update-panicked_iff (loop zs u.0) u.1 in
          let later = loop-panicked_iff zs u.0 in
          (
            λ h. inr (later.0 (this.0 (sym step ∙ h))),
            λ h. elim h [
              | inl bare ↦ absurd (let e : some features ≡ none = sym has ∙ bare in cc)
              | inr rest ↦ step ∙ this.1 (later.1 rest)
            ],
          ))
  ]

  -- When both versions can be found out and the zones can be listed, a reconciliation panics exactly
  -- when one of the listed zones, wherever it stands, has no map of features, whatever the updates of
  -- the zones before it return.
  pub reconcile-panicked_iff :
      (zs : List Zone) (s : zones.Store)
      → versions multierr r ≡ done (ocp, k8s)
      → r.list_zones s ≡ ok zs
      → ((reconcile multierr r s).1 ≡ panicked) ↔ Any IsBare zs
  unfolding reconcile
  reconcile-panicked_iff zs s found listed =
      let all : reconcile multierr r s ≡ finish multierr r (loop zs s) = rw (found, listed) refl in
      let this = finish-panicked_iff (loop zs s) in
      let loops = loop-panicked_iff zs s in
      (
        λ h. loops.0 (this.0 (sym (ap (λ x. x.1) all) ∙ h)),
        λ h. ap (λ x. x.1) all ∙ this.1 (loops.1 h),
      )
