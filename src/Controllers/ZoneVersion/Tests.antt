-- ===== src/Controllers/ZoneVersion/Tests.antt =====
-- Cluster versions and zones, and the theorems there.
use appuio_cloud_agent.Base.{
  ℕ, String, true, false, ◌≡◌, ◌≢◌, refl, ap, List, [], ◌∷◌, Option, none, some, All, Any, ◌↔◌,
  ◌==◌, split, arith,
}
use appuio_cloud_agent.Kube.{ok, first_only}
use appuio_cloud_agent.Kube.Memory.{string_keys, memory}
use appuio_cloud_agent.Controllers.ZoneVersion.{
  done, panicked, Update, ClusterVersion, Version, Zone, find_latest, parse_version,
  extract_open_shift_version, versions, ZoneK8sVersionReconciler, reconcile, update_zones,
}
use appuio_cloud_agent.Controllers.ZoneVersion.Laws.{
  IsUpdated, IsBare, reconcile-IsUpdated, reconcile-panicked_iff,
}

abbrev update : String → ℕ → Update
update v t = record { state = "Completed"; version = v; verified = true; completion_time = some t }

abbrev cluster_version : ClusterVersion
cluster_version = record {
  history = update "4.14.2" 20 ∷ update "4.13.7" 10 ∷ [];
  desired = "4.15.0";
}

abbrev ocp : Version
ocp = record { major = "4"; minor = "14" }

abbrev k8s : Version
k8s = record { major = "1"; minor = "27" }

extracts : extract_open_shift_version cluster_version ≡ done ocp
unfolding extract_open_shift_version find_latest parse_version split
extracts = refl

abbrev zone : Zone
zone = record { name = "zone"; features = some [] }

abbrev bare_zone : Zone
bare_zone = record { name = "bare"; features = none }

abbrev reconciler : List Zone → ZoneK8sVersionReconciler
reconciler zs = record {
  get_cluster_version = ok cluster_version;
  get_body = ok "";
  unmarshal = λ _. ok k8s;
  zones = memory string_keys (λ z. some z);
  list_zones = λ _. ok zs;
}

found : (zs : List Zone) → versions first_only (reconciler zs) ≡ done (ocp, k8s)
unfolding extract_open_shift_version find_latest parse_version split
found zs = refl

abbrev nothing : String → Option Zone
nothing _ = none

updates : (reconcile first_only (reconciler (zone ∷ [])) nothing).1 ≡ done none
unfolding reconcile update_zones extract_open_shift_version find_latest parse_version split
updates = refl

-- A desired version with one part, and no history.
abbrev four : ClusterVersion
four = record { history = []; desired = "4" }

no_history : find_latest [] ("", 0) ≡ done ("", 0)
unfolding find_latest
no_history = refl

four-ne-empty : ◌≢◌ {A = String} "4" ""
four-ne-empty h = let e : false ≡ true = ap (λ s. s == "") h in absurd (ground arith)

reconcile-IsUpdated_example :
    All
      (IsUpdated first_only
        (reconciler (zone ∷ []))
        k8s
        ocp
        (reconcile first_only (reconciler (zone ∷ [])) nothing).0)
      (zone ∷ [])
reconcile-IsUpdated_example =
    reconcile-IsUpdated first_only (reconciler (zone ∷ [])) k8s ocp (zone ∷ []) nothing
      (found (zone ∷ [])) refl (([], refl), tt) (tt, tt) updates

reconcile-panicked_iff_example :
    ((reconcile first_only (reconciler (zone ∷ bare_zone ∷ [])) nothing).1 ≡ panicked)
    ↔ Any (IsBare first_only (reconciler (zone ∷ bare_zone ∷ [])) k8s ocp) (zone ∷ bare_zone ∷ [])
reconcile-panicked_iff_example =
    reconcile-panicked_iff first_only (reconciler (zone ∷ bare_zone ∷ [])) k8s ocp
      (zone ∷ bare_zone ∷ []) nothing (found (zone ∷ bare_zone ∷ [])) refl
