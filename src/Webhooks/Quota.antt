-- ===== src/Webhooks/Quota.antt =====
-- webhooks/namespace_quota_validator.go
pub mod Laws
mod Tests
use Prim.Native.String.{◌++◌ as str_append}
use appuio_cloud_agent.Base.{
  ℤ, pos, leb_ℤ, String, Bool, true, false, not, List, [], ◌∷◌, Option, none, some, index, ◌==◌,
  if◌then◌else◌, length, atoi,
}
use appuio_cloud_agent.Kube.{
  Error, external, is_not_found, text, lit, quoted, num, end, Result, ok, err, ◌>>=◌, Request,
  Response, allowed, denied, errored, Decoder, Unstructured, Found, found, missing, mistyped,
  ConfigMap, User, Reader,
}
use appuio_cloud_agent.Skipper.Skip.{Skipper}
use appuio_cloud_agent.Webhooks.Guard.{unless_skipped, attempt}

pub record NamespaceQuotaValidator : Type 0 where
  pub decoder : Decoder Unstructured
  pub client : Reader
  pub skipper : Skipper
  pub skip_validate_quota : Bool
  pub organization_label : String
  pub user_default_organization_annotation : String
  pub selected_profile : String
  pub quota_override_namespace : String
  pub enable_legacy_namespace_quota : Bool
  pub legacy_namespace_quota : ℤ

-- What is decided early is a response; what goes on is a value.
pub data Step {ℓ} (A : Type ℓ) : Type ℓ where
  return : Response → Step A
  next : A → Step A

abbrev pub and_then {ℓ} : {A : Type ℓ} → Step A → (A → Response) → Response
and_then (return r) rest = r
and_then (next a) rest = rest a

abbrev pub or_500 {ℓ κ} : {A : Type ℓ} {B : Type κ} → Result A → (A → Step B) → Step B
or_500 (ok a) rest = rest a
or_500 (err e) rest = return (errored 500 e)

-- The label of a namespace object; the zero value where it is missing.
abbrev pub label_value : Found String → Result String
label_value (found s) = ok s
label_value missing = ok ""
label_value (mistyped e) = err e

module _ (v : NamespaceQuotaValidator) where
  abbrev pub label_of_object : Unstructured → Result String
  label_of_object raw =
      if raw.kind == "Namespace"
      then label_value (raw.nested_string ("metadata" ∷ "labels" ∷ v.organization_label ∷ []))
      else ok ""

  abbrev pub default_organization : User → Step String
  default_organization user =
      let don = index v.user_default_organization_annotation user.annotations in
      if don == ""
      then return (
          denied
            (text "There is no organization label and the user has no default organization set."))
      else next don

  -- `organizationName`
  unfoldable pub organization_name : Request → Unstructured → Step String
  organization_name req raw = or_500 (label_of_object raw) λ on.
      if on == ""
      then or_500 (v.client.get_user req.user_info.username) default_organization
      else next on

  -- `nsCountLimit` before an override.
  unfoldable pub base_limit : Step ℤ
  base_limit =
      if v.enable_legacy_namespace_quota
      then next v.legacy_namespace_quota
      else (if v.selected_profile == ""
          then return (denied (text "No ZoneUsageProfile selected"))
          else or_500 (v.client.get_zone_usage_profile v.selected_profile)
              λ profile. next profile.namespace_count)

  abbrev pub parsed_quota : Option ℤ → Step ℤ
  parsed_quota none = return (errored 500 (external "strconv.Atoi"))
  parsed_quota (some n) = next n

  -- The limit once the config map with the override has been asked for.
  abbrev pub override : ℤ → Result ConfigMap → Step ℤ
  override limit (ok cm) =
      let quota = index "namespaceQuota" cm.entries in
      if not (quota == "") then parsed_quota (atoi quota) else next limit
  override limit (err e) = if is_not_found e then next limit else return (errored 500 e)

  unfoldable pub limit_for : String → ℤ → Step ℤ
  limit_for organization limit =
      override limit
        (v.client.get_config_map (str_append "override-" organization) v.quota_override_namespace)

  unfoldable pub check_count : String → ℤ → Response
  check_count organization limit =
      attempt (v.client.list_namespaces v.organization_label organization) (errored 500) λ nss.
        if leb_ℤ limit (pos (length nss))
        then denied (
            lit "You cannot create more than " (
              num limit (
                lit " namespaces for organization " (
                  quoted organization
                    (lit ". Please contact support to have your quota raised." end)))))
        else allowed (text "allowed")

  unfoldable pub handle : Request → Response
  handle req =
      unless_skipped (λ e. e) (v.skipper req)
        (attempt (v.decoder.decode req) (errored 400) λ raw.
          and_then (organization_name req raw) λ organization.
            if v.skip_validate_quota
            then allowed (text "skipped quota validation")
            else and_then base_limit λ base.
              and_then (limit_for organization base) λ limit. check_count organization limit)
