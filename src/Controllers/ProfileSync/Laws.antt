-- ===== src/Controllers/ProfileSync/Laws.antt =====
-- controllers/zoneusageprofilesync_controller.go: the profile afterwards.
use mathlib.Core.Path.{subst}
use appuio_cloud_agent.Base.{String, ◌≡◌, ◌≢◌, refl, sym, ap, ◌∙◌, Option, none, some, arith}
use appuio_cloud_agent.Kube.{Error, Result, ok, err, or_given}
use appuio_cloud_agent.Controllers.ProfileSync.{
  SyncedProfile, UsageProfile, ZoneUsageProfileSyncReconciler, set_spec, after_get, after_put,
  on_upstream, reconcile,
}

module _ {U M : Type 0} (r : ZoneUsageProfileSyncReconciler U M) where
  open r use {profiles}

  -- The profile has the specification that there is upstream, and all else is as it was; a profile
  -- that is new is else empty. All other profiles are as they were.
  abbrev pub IsSynced : UsageProfile U → profiles.Store → profiles.Store → Type 0
  IsSynced upstream s s' =
      (profiles.find upstream.name s'
        ≡ some (record (or_given r.zero (profiles.find upstream.name s)) {
          upstream_spec = upstream.spec;
        }))
      × ((j : String) → upstream.name ≢ j → profiles.find j s' ≡ profiles.find j s)

  after_get-store :
      (x : Result (SyncedProfile U M)) (s : profiles.Store) → (after_get r x s).store ≡ s
  after_get-store (ok p) s = refl
  after_get-store (err e) s = refl

  after_put-none :
      (name : String) (p : profiles.Store × Option Error)
      → (after_put r name p).error ≡ none
      → (p.1 ≡ none) × ((after_put r name p).store ≡ p.0)
  after_put-none name (s, none) h = (refl, after_get-store (profiles.get name s) s)
  after_put-none name (s, some e) h = absurd (ground arith)

  -- After a reconciliation without an error of a profile that can be read upstream, the profile is
  -- synchronised.
  pub reconcile-IsSynced_profile :
      (name : String) (upstream : UsageProfile U) (s : profiles.Store)
      → r.get_upstream name ≡ ok upstream
      → (reconcile r name s).error ≡ none
      → IsSynced upstream s (reconcile r name s).store
  unfolding reconcile
  reconcile-IsSynced_profile name upstream s got =
      subst (λ o. o.error ≡ none → IsSynced upstream s o.store)
        (sym (ap (λ x. on_upstream r x s) got))
        (λ fine.
          let (put_fine, same) =
            after_put-none upstream.name
              (profiles.create_or_update upstream.name r.zero (set_spec r upstream.spec) s) fine in
          let (new, made, there) =
            profiles.create_or_update-find upstream.name r.zero (set_spec r upstream.spec) s
              put_fine in
          let made_of : record (or_given r.zero (profiles.find upstream.name s)) {
            upstream_spec = upstream.spec;
          }
              ≡ new =
            ground arith in
          subst (IsSynced upstream s) (sym same) (
            there ∙ ap some (sym made_of),
            λ j other.
                profiles.create_or_update-find_ne upstream.name j r.zero (set_spec r upstream.spec)
                  s other,
          ))
