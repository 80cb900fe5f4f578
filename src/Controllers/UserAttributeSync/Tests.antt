-- ===== src/Controllers/UserAttributeSync/Tests.antt =====
-- The annotation of one user, and the theorem there.
use appuio_cloud_agent.Base.{String, ◌≡◌, refl, [], ◌∷◌, Option, none, some, Dict}
use appuio_cloud_agent.Kube.{ok}
use appuio_cloud_agent.Kube.Memory.{memory_annotations}
use appuio_cloud_agent.Controllers.UserAttributeSync.{UserAttributeSyncReconciler, reconcile}
use appuio_cloud_agent.Controllers.UserAttributeSync.Laws.{IsSynced, reconcile-IsSynced}

abbrev reconciler : UserAttributeSyncReconciler
reconciler = record { users = memory_annotations; get_upstream = λ _. ok "acme" }

-- Every user has one annotation, and no default organization.
abbrev users : String → Option (Option (Dict String))
users _ = some (some (("note", "x") ∷ []))

succeeds : (reconcile reconciler "jane" users).error ≡ none
unfolding reconcile
succeeds = refl

reconcile-IsSynced_example :
    IsSynced reconciler "jane" "acme"
      (some (("note", "x") ∷ []))
      (reconcile reconciler "jane" users).store
reconcile-IsSynced_example =
    reconcile-IsSynced reconciler "jane" "acme" users (some (("note", "x") ∷ [])) refl refl succeeds
