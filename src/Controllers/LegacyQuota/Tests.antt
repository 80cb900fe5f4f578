-- ===== src/Controllers/LegacyQuota/Tests.antt =====
-- The quotas of one namespace, and the theorem there.
use appuio_cloud_agent.Base.{
  String, false, ◌≡◌, refl, [], ◌∷◌, none, some, All, cut_prefix, contains_text, replace_all,
}
use appuio_cloud_agent.Kube.{external, ok, err, Namespace, first_only}
use appuio_cloud_agent.Kube.Memory.{pair_keys, memory}
use appuio_cloud_agent.Controllers.LegacyQuota.{
  QuotaSpec, LegacyResourceQuotaReconciler, World, apply_quotas, apply_limits, reconcile,
}
use appuio_cloud_agent.Controllers.LegacyQuota.Laws.{reconcile-IsApplied}
use appuio_cloud_agent.Controllers.LegacyQuota.Put.{IsApplied, IsLimited}

abbrev acme : Namespace
acme = record {
  name = "acme";
  labels = ("appuio.io/organization", "acme") ∷ [];
  annotations = ("quota.appuio.io/compute.limits_cpu", "8") ∷ [];
  deleting = false;
}

-- The default limits are 4 CPUs and 2 GiB; quantities are texts.
abbrev compute : QuotaSpec String Unit
compute = record { hard = ("limits/cpu", "4") ∷ ("memory", "2Gi") ∷ []; rest = tt }

abbrev reconciler : LegacyResourceQuotaReconciler String Unit String
reconciler = record {
  quotas = memory pair_keys (λ q. some q);
  limits = memory pair_keys (λ l. some l);
  get_namespace = λ _. ok acme;
  parse_quantity = λ s. ok s;
  unmarshal = λ _. err (external "json");
  set_controller_reference = λ ns os. ok (ns ∷ []);
  no_quota = record { hard = []; rest = tt };
  no_limit = "";
  organization_label = "appuio.io/organization";
  resource_quota_annotation_base = "quota.appuio.io";
  default_resource_quotas = ("compute", compute) ∷ [];
  limit_range_name = "range";
  default_limit_range = "1Gi";
}

abbrev empty : World first_only reconciler
empty = record { quota_store = λ _. none; limit_store = λ _. none }

succeeds : (reconcile first_only reconciler "acme" empty).error ≡ none
unfolding reconcile apply_quotas apply_limits replace_all contains_text cut_prefix
succeeds = refl

overrides :
    (reconcile first_only reconciler "acme" empty).world.quota_store ("acme", "compute")
    ≡ some (record {
      spec = record { hard = ("limits/cpu", "8") ∷ ("memory", "2Gi") ∷ []; rest = tt };
      owners = "acme" ∷ [];
    })
unfolding reconcile apply_quotas apply_limits replace_all contains_text cut_prefix
overrides = refl

reconcile-IsApplied_example :
    All
      (IsApplied first_only reconciler acme
        (reconcile first_only reconciler "acme" empty).world.quota_store)
      (("compute", compute) ∷ [])
    × IsLimited first_only reconciler acme
        (reconcile first_only reconciler "acme" empty).world.limit_store
reconcile-IsApplied_example =
    reconcile-IsApplied first_only reconciler "acme" "acme" acme empty refl refl refl (refl, tt)
      succeeds
