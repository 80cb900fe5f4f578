-- ===== src/Controllers/ProfileSync.antt =====
-- controllers/zoneusageprofilesync_controller.go. The state is the profiles that the API server holds;
-- upstream only is read. A parameter is the rest of a profile, which the controller keeps.
pub mod Laws
mod Tests
use appuio_cloud_agent.Base.{String, Bool, true, false, List, Option, none, some}
use appuio_cloud_agent.Kube.{Error, ignore_not_found, Result, ok, err, Client}

pub record SyncedProfile (U : Type 0) (M : Type 0) : Type 0 where
  pub upstream_spec : U
  pub rest : M

pub record UsageProfile (U : Type 0) : Type 0 where
  pub name : String
  pub spec : U

pub record ZoneUsageProfileSyncReconciler (U : Type 0) (M : Type 0) : Type 1 where
  pub profiles : Client String (SyncedProfile U M)
  pub get_upstream : String → Result (UsageProfile U)
  -- an empty profile
  pub zero : SyncedProfile U M

module _ {U M : Type 0} (r : ZoneUsageProfileSyncReconciler U M) where
  open r use {profiles}

  -- The profiles, the returned error, and whether the event was recorded.
  pub record Outcome : Type 0 where
    pub store : profiles.Store
    pub error : Option Error
    pub is_recorded : Bool

  abbrev unchanged : profiles.Store → Option Error → Outcome
  unchanged s e = record { store = s; error = e; is_recorded = false }

  -- The function that `CreateOrUpdate` calls.
  abbrev pub set_spec : U → SyncedProfile U M → Result (SyncedProfile U M)
  set_spec spec p = ok (record p { upstream_spec = spec })

  abbrev pub after_get : Result (SyncedProfile U M) → profiles.Store → Outcome
  after_get (err e) s = unchanged s (some e)
  after_get (ok p) s = record { store = s; error = none; is_recorded = true }

  abbrev pub after_put : String → profiles.Store × Option Error → Outcome
  after_put name (s, some e) = unchanged s (some e)
  after_put name (s, none) = after_get (profiles.get name s) s

  abbrev pub on_upstream : Result (UsageProfile U) → profiles.Store → Outcome
  on_upstream (err e) s = unchanged s (ignore_not_found e)
  on_upstream (ok upstream) s =
      after_put upstream.name
        (profiles.create_or_update upstream.name r.zero (set_spec upstream.spec) s)

  unfoldable pub reconcile : String → profiles.Store → Outcome
  reconcile name s = on_upstream (r.get_upstream name) s
