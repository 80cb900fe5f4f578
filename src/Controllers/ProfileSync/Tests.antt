-- ===== src/Controllers/ProfileSync/Tests.antt =====
-- One profile that is new, and the theorem there.
use appuio_cloud_agent.Base.{String, ◌≡◌, refl, Option, none, some}
use appuio_cloud_agent.Kube.{ok}
use appuio_cloud_agent.Kube.Memory.{string_keys, memory}
use appuio_cloud_agent.Controllers.ProfileSync.{
  SyncedProfile, UsageProfile, ZoneUsageProfileSyncReconciler, reconcile,
}

abbrev gold : UsageProfile String
gold = record { name = "gold"; spec = "8 CPUs" }

abbrev reconciler : ZoneUsageProfileSyncReconciler String Unit
reconciler = record {
  profiles = memory string_keys (λ p. some p);
  get_upstream = λ _. ok gold;
  zero = record { upstream_spec = ""; rest = tt };
}

abbrev empty : String → Option (SyncedProfile String Unit)
empty _ = none

succeeds : (reconcile reconciler "gold" empty).error ≡ none
unfolding reconcile
succeeds = refl

syncs :
    (reconcile reconciler "gold" empty).store "gold"
    ≡ some (record { upstream_spec = "8 CPUs"; rest = tt })
unfolding reconcile
syncs = refl
