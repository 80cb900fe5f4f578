-- ===== src/Webhooks/Quota/Tests.antt =====
-- Runs of the namespace quota webhook, and the theorem at a concrete request.
use appuio_cloud_agent.Base.{pos, String, true, false, ◌≡◌, refl, ◌↔◌, ◌⊎◌}
use appuio_cloud_agent.Kube.{allowed, text, is_allowed}
use appuio_cloud_agent.Webhooks.Samples.{request, reader, always, bare, no_skip}
use appuio_cloud_agent.Webhooks.Quota.{
  NamespaceQuotaValidator, handle, organization_name, base_limit, limit_for, check_count,
}
use appuio_cloud_agent.Webhooks.Quota.Laws.{IsOrganization, IsBelowLimit, handle-IsBelowLimit_iff}

abbrev validator : NamespaceQuotaValidator
validator = record {
  decoder = always (bare "Namespace");
  client = reader;
  skipper = no_skip;
  skip_validate_quota = false;
  organization_label = "appuio.io/organization";
  user_default_organization_annotation = "default-organization";
  selected_profile = "normal";
  quota_override_namespace = "appuio-cloud";
  enable_legacy_namespace_quota = false;
  legacy_namespace_quota = pos 0;
}

-- One namespace of two.
below : handle validator (request "jane" "Namespace" "web") ≡ allowed (text "allowed")
unfolding handle organization_name base_limit limit_for check_count
below = refl

-- One namespace of one.
abbrev legacy : NamespaceQuotaValidator
legacy = record validator { enable_legacy_namespace_quota = true; legacy_namespace_quota = pos 1 }

full : is_allowed (handle legacy (request "jane" "Namespace" "web")) ≡ false
unfolding handle organization_name base_limit limit_for check_count
full = refl

handle-IsBelowLimit_iff_example :
    (is_allowed (handle validator (request "jane" "Namespace" "web")) ≡ true) ↔ (
      (org : String) × IsOrganization validator
        (request "jane" "Namespace" "web")
        (bare "Namespace")
        org
      × ((false ≡ true) ⊎ ((false ≡ false) × IsBelowLimit validator org)))
handle-IsBelowLimit_iff_example =
    handle-IsBelowLimit_iff validator (request "jane" "Namespace" "web") (bare "Namespace") refl
      refl
