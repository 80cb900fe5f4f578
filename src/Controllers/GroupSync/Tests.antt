-- ===== src/Controllers/GroupSync/Tests.antt =====
-- The synchronisation of one group, and the theorems there.

use appuio_cloud_agent.Base.{
  String, true, false, ◌≡◌, ◌≢◌, refl, ap, ◌⊎◌, inl, [], ◌∷◌, none, some, ◌==◌, arith, cut,
}
use appuio_cloud_agent.Kube.{not_found}
use appuio_cloud_agent.Controllers.GroupSync.{team, upstream_key, group_of, reconcile}
use appuio_cloud_agent.Controllers.GroupSync.Key.{IsKey, upstream_key-group_of}
use appuio_cloud_agent.Controllers.GroupSync.Laws.{run, group_in, IsCopied, IsCleared}
use appuio_cloud_agent.Controllers.GroupSync.Finalizer.{IsGuarded, reconcile_unprotected}
use appuio_cloud_agent.Controllers.GroupSync.Steps.{here, next, reconciled, Reach-IsGuarded}
use appuio_cloud_agent.Kube.Memory.{string_keys, memory_works}
use appuio_cloud_agent.Controllers.GroupSync.Progress.{reconcile-IsCopied_always}
use appuio_cloud_agent.Controllers.GroupSync.Samples.{
  keys, kept, reconciler, keeps, acme, empty, refused, empty_refused,
}

copies :
    group_in reconciler keeps "acme" (run reconciler keeps "acme" empty).0
    ≡ some ("jane" ∷ "joe" ∷ [])
unfolding reconcile upstream_key cut
copies = refl

succeeds : (run reconciler keeps "acme" empty).1 ≡ none
unfolding reconcile upstream_key cut
succeeds = refl

dev-IsKey : IsKey (record { kind = team; namespace = "acme"; name = "dev" })
dev-IsKey = ((refl, (refl, (refl, (refl, tt)))), λ h. absurd (ground arith))

upstream_key-group_of_example :
    upstream_key (group_of (record { kind = team; namespace = "acme"; name = "dev" }))
    ≡ record { kind = team; namespace = "acme"; name = "dev" }
upstream_key-group_of_example =
    upstream_key-group_of (record { kind = team; namespace = "acme"; name = "dev" }) dev-IsKey

Reach-IsGuarded_example : IsGuarded reconciler keeps "acme" (run reconciler keeps "acme" empty).0
Reach-IsGuarded_example =
    Reach-IsGuarded reconciler keeps empty (run reconciler keeps "acme" empty).0 (λ _. refl)
      (next here (reconciled "acme" refl (inl succeeds))) "acme"

other_name : ◌≢◌ {A = String} "acme" "beta"
other_name h = let e : true ≡ false = ap (λ s. s == "acme") h in absurd (ground arith)

reconcile_unprotected_example :
    ((run refused keeps "acme" empty_refused).1 ≡ some (not_found ""))
    × (¬ IsGuarded refused keeps "acme" (run refused keeps "acme" empty_refused).0)
reconcile_unprotected_example =
    reconcile_unprotected refused keeps "acme" empty_refused acme (not_found "") refl refl (λ h. h)
      refl refl

reconcile-IsCopied_always_example :
    ((run reconciler keeps "acme" empty).1 ≡ none)
    × (((false ≡ true) × IsCleared reconciler keeps "acme" (run reconciler keeps "acme" empty).0)
        ⊎ ((false ≡ false)
            × IsCopied reconciler keeps "acme" acme (run reconciler keeps "acme" empty).0))
reconcile-IsCopied_always_example =
    reconcile-IsCopied_always reconciler keeps (memory_works string_keys (λ us. some us))
      (memory_works keys kept) "acme" empty acme refl
