-- ===== src/Controllers/UserAttributeSync.antt =====
-- controllers/userattributesync_controller.go. The state is the users that the API server holds, the
-- annotations of each; upstream only is read. Parameters are the two clients.
pub mod Laws
mod Tests
use appuio_cloud_agent.Base.{
  String, Bool, true, false, List, [], ◌∷◌, Option, none, some, Dict, index, insert, ◌==◌, ◌&&◌,
  if◌then◌else◌,
}
use appuio_cloud_agent.Kube.{Error, is_not_found, ignore_not_found, Result, ok, err, Patching}

abbrev pub default_organization_annotation : String
default_organization_annotation = "appuio.io/default-organization"

-- The fields of the reconciler. `get_upstream` is the default organization that the user prefers.
pub record UserAttributeSyncReconciler : Type 1 where
  pub users : Patching
  pub get_upstream : String → Result String

module _ (r : UserAttributeSyncReconciler) where
  open r use {users}

  -- The users, the returned error, and whether the event was recorded.
  pub record Outcome : Type 0 where
    pub store : users.Store
    pub error : Option Error
    pub is_recorded : Bool

  abbrev pub unchanged : users.Store → Option Error → Outcome
  unchanged s e = record { store = s; error = e; is_recorded = false }

  abbrev pub after_patch : users.Store × Option Error → Outcome
  after_patch (s, none) = record { store = s; error = none; is_recorded = true }
  after_patch (s, some e) = unchanged s (some e)

  abbrev pub is_correct : String → Option (Dict String) → Bool
  is_correct upstream none = false
  is_correct upstream (some annotations) =
      index default_organization_annotation annotations == upstream

  abbrev pub on_local : String → String → Result (Option (Dict String)) → users.Store → Outcome
  on_local name upstream (err e) s = unchanged s (ignore_not_found e)
  on_local name upstream (ok annotations) s =
      if is_correct upstream annotations
      then unchanged s none
      else after_patch (users.patch name default_organization_annotation upstream s)

  abbrev pub on_upstream : String → Result String → users.Store → Outcome
  on_upstream name (err e) s = unchanged s (ignore_not_found e)
  on_upstream name (ok upstream) s = on_local name upstream (users.get name s) s

  unfoldable pub reconcile : String → users.Store → Outcome
  reconcile name s = on_upstream name (r.get_upstream name) s
