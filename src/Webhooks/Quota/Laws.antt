-- ===== src/Webhooks/Quota/Laws.antt =====
-- When a namespace may be created.
use Prim.Native.String.{◌++◌ as str_append}
use appuio_cloud_agent.Base.{
  ℤ, pos, ◌<ℤ◌, String, true, false, ◌≡◌, refl, ◌≢◌, ◌↔◌, ◌⊎◌, inl, inr, List, some, arith, index,
  ◌==◌, eq_iff, Bool-cases, if◌then◌else◌, length, atoi,
}
use appuio_cloud_agent.Kube.{
  Error, is_not_found, Result, ok, err, Result-cases, Request, Response, allowed, text, is_allowed,
  Unstructured, Namespace, ConfigMap, ZoneUsageProfile, User,
}
use appuio_cloud_agent.Webhooks.Guard.{IsChecked}
use appuio_cloud_agent.Webhooks.Quota.{
  NamespaceQuotaValidator, Step, return, next, and_then, label_of_object, organization_name,
  base_limit, limit_for, check_count, handle,
}

-- A step that returns early does not admit the request.
abbrev Refuses {ℓ} : {A : Type ℓ} → Step A → Type 0
Refuses (return r) = is_allowed r ≡ false
Refuses (next a) = Unit

and_then_iff {ℓ} :
    {A : Type ℓ} (s : Step A) (rest : A → Response)
    → Refuses s
    → (is_allowed (and_then s rest) ≡ true)
      ↔ ((a : A) × (s ≡ next a) × (is_allowed (rest a) ≡ true))
and_then_iff (return r) rest h = (λ a. absurd (ground arith), λ (a, e, b). absurd (ground arith))
and_then_iff (next a) rest h = (λ b. (a, refl, b), λ (a', e, b). ground arith)

module _ (v : NamespaceQuotaValidator) where
  -- The organization of the request: the label of the namespace object, or else the default of the
  -- user.
  abbrev pub IsOrganization : Request → Unstructured → String → Type 0
  IsOrganization req raw org =
      ((label_of_object v raw ≡ ok org) × (org ≢ ""))
      ⊎ ((label_of_object v raw ≡ ok "")
          × ((user : User) × (v.client.get_user req.user_info.username ≡ ok user)
              × (org ≢ "")
              × (index v.user_default_organization_annotation user.annotations ≡ org)))

  -- The limit that holds where there is no override.
  abbrev pub IsBase : ℤ → Type 0
  IsBase base =
      ((v.enable_legacy_namespace_quota ≡ true) × (base ≡ v.legacy_namespace_quota))
      ⊎ ((v.enable_legacy_namespace_quota ≡ false)
          × (v.selected_profile ≢ "")
          × ((p : ZoneUsageProfile) × (v.client.get_zone_usage_profile v.selected_profile ≡ ok p)
              × (base ≡ p.namespace_count)))

  abbrev pub override_of : String → Result ConfigMap
  override_of org = v.client.get_config_map (str_append "override-" org) v.quota_override_namespace

  -- The limit for the organization: the number in its override, or the base where there is no override
  -- or the override has no number.
  abbrev pub IsLimit : String → ℤ → ℤ → Type 0
  IsLimit org base limit =
      ((cm : ConfigMap) × (override_of org ≡ ok cm)
        × (((index "namespaceQuota" cm.entries ≡ "") × (limit ≡ base))
            ⊎ ((index "namespaceQuota" cm.entries ≢ "")
                × (atoi (index "namespaceQuota" cm.entries) ≡ some limit))))
      ⊎ ((e : Error) × (override_of org ≡ err e) × (is_not_found e ≡ true) × (limit ≡ base))

  check_count_iff :
      (org : String) (limit : ℤ)
      → (is_allowed (check_count v org limit) ≡ true) ↔ (
          (nss : List Namespace) × (v.client.list_namespaces v.organization_label org ≡ ok nss)
          × (pos (length nss) <ℤ limit))
  unfolding check_count
  check_count_iff org limit =
      elim (Result-cases (v.client.list_namespaces v.organization_label org)) [
        | inl (nss, got) ↦ (λ h. (nss, got, ground arith), λ (nss', got', below). ground arith)
        | inr (e, failed) ↦ (λ h. ground arith, λ (nss', got', below). ground arith)
      ]

  base_limit_iff : (base : ℤ) → (base_limit v ≡ next base) ↔ IsBase base
  unfolding base_limit
  base_limit_iff base = elim (Result-cases (v.client.get_zone_usage_profile v.selected_profile)) [
    | inl (p, got) ↦ (
      λ h. elim (Bool-cases v.enable_legacy_namespace_quota) [
        | inl legacy ↦ inl (legacy, ground arith)
        | inr current ↦ inr (
          current,
          ground (arith, eq_iff v.selected_profile ""),
          (p, got, ground (arith, eq_iff v.selected_profile "")),
        )
      ],
      λ h. ground (arith, eq_iff v.selected_profile ""),
    )
    | inr (e, failed) ↦
        (λ h. inl (ground arith, ground arith), λ h. ground (arith, eq_iff v.selected_profile ""))
  ]

  base_limit-Refuses : Refuses (base_limit v)
  unfolding base_limit
  base_limit-Refuses = elim (Result-cases (v.client.get_zone_usage_profile v.selected_profile)) [
    | inl (p, got) ↦ ground arith
    | inr (e, failed) ↦ ground arith
  ]

  limit_for_iff :
      (org : String) (base limit : ℤ) → (limit_for v org base ≡ next limit) ↔ IsLimit org base limit
  unfolding limit_for
  limit_for_iff org base limit = elim (Result-cases (override_of org)) [
    | inl (cm, got) ↦ (
      λ h. inl (cm, got, ground (arith, eq_iff (index "namespaceQuota" cm.entries) "")),
      λ h. ground (arith, eq_iff (index "namespaceQuota" cm.entries) ""),
    )
    | inr (e, failed) ↦ (λ h. inr (e, failed, ground arith, ground arith), λ h. ground arith)
  ]

  limit_for-Refuses : (org : String) (base : ℤ) → Refuses (limit_for v org base)
  unfolding limit_for
  limit_for-Refuses org base = elim (Result-cases (override_of org)) [
    | inl (cm, got) ↦ ground arith
    | inr (e, failed) ↦ ground arith
  ]

  organization_name_iff :
      (req : Request) (raw : Unstructured) (org : String)
      → (organization_name v req raw ≡ next org) ↔ IsOrganization req raw org
  unfolding organization_name
  organization_name_iff req raw org = elim (Result-cases (label_of_object v raw)) [
    | inl (on, got) ↦ elim (Result-cases (v.client.get_user req.user_info.username)) [
      | inl (user, known) ↦
          let don = index v.user_default_organization_annotation user.annotations in
          (
            λ h. elim (Bool-cases (on == "")) [
              | inl unset ↦ inr (
                ground (arith, eq_iff on ""),
                (user, known, ground (arith, eq_iff don ""), ground (arith, eq_iff don "")),
              )
              | inr set ↦ inl (ground arith, ground (arith, eq_iff on ""))
            ],
            λ h. ground (arith, eq_iff on "", eq_iff don "", eq_iff org ""),
          )
      | inr (e, unknown) ↦
          (λ h. inl (ground arith, ground (arith, eq_iff on "")), λ h. ground (arith, eq_iff on ""))
    ]
    | inr (e, failed) ↦ (λ h. ground arith, λ h. ground arith)
  ]

  organization_name-Refuses :
      (req : Request) (raw : Unstructured) → Refuses (organization_name v req raw)
  unfolding organization_name
  organization_name-Refuses req raw = elim (Result-cases (label_of_object v raw)) [
    | inl (on, got) ↦ elim (Result-cases (v.client.get_user req.user_info.username)) [
      | inl (user, known) ↦ ground arith
      | inr (e, unknown) ↦ ground arith
    ]
    | inr (e, failed) ↦ ground arith
  ]

  -- The organization has fewer namespaces than its limit.
  abbrev pub IsBelowLimit : String → Type 0
  IsBelowLimit org =
      (base limit : ℤ) × (nss : List Namespace) × IsBase base
      × IsLimit org base limit
      × (v.client.list_namespaces v.organization_label org ≡ ok nss)
      × (pos (length nss) <ℤ limit)

  check-IsLimit_iff :
      (org : String) (base : ℤ)
      → (is_allowed (and_then (limit_for v org base) (check_count v org)) ≡ true) ↔ (
          (limit : ℤ) × (nss : List Namespace) × IsLimit org base limit
          × (v.client.list_namespaces v.organization_label org ≡ ok nss)
          × (pos (length nss) <ℤ limit))
  check-IsLimit_iff org base =
      let (to, from) =
        and_then_iff (limit_for v org base) (check_count v org) (limit_for-Refuses org base) in
      (
        λ h.
            let (limit, e, a) = to h in
            let (nss, got, below) = (check_count_iff org limit).0 a in
            (limit, nss, (limit_for_iff org base limit).0 e, got, below),
        λ (limit, nss, is_limit, got, below). from (
          limit,
          (limit_for_iff org base limit).1 is_limit,
          (check_count_iff org limit).1 (nss, got, below),
        ),
      )

  check_quota_iff :
      (org : String)
      → (is_allowed
            (and_then (base_limit v) λ base. and_then (limit_for v org base) (check_count v org))
          ≡ true)
        ↔ IsBelowLimit org
  check_quota_iff org =
      let (to, from) =
        and_then_iff (base_limit v) (λ base. and_then (limit_for v org base) (check_count v org))
          base_limit-Refuses in
      (
        λ h.
            let (base, e, a) = to h in
            let (limit, nss, is_limit, got, below) = (check-IsLimit_iff org base).0 a in
            (base, limit, nss, (base_limit_iff base).0 e, is_limit, got, below),
        λ (base, limit, nss, is_base, is_limit, got, below). from (
          base,
          (base_limit_iff base).1 is_base,
          (check-IsLimit_iff org base).1 (limit, nss, is_limit, got, below),
        ),
      )

  check_organization_iff :
      (org : String)
      → (is_allowed (
            if v.skip_validate_quota
            then allowed (text "skipped quota validation")
            else and_then
                (base_limit v)
                λ base. and_then (limit_for v org base) (check_count v org))
          ≡ true)
        ↔ ((v.skip_validate_quota ≡ true) ⊎ ((v.skip_validate_quota ≡ false) × IsBelowLimit org))
  check_organization_iff org =
      let (to, from) = check_quota_iff org in
      elim (Bool-cases v.skip_validate_quota) [
        | inl skip ↦ simp skip (λ h. inl refl, λ h. refl)
        | inr validate ↦ simp validate (
          λ h. inr (refl, to h),
          λ h. elim h [ inl skip ↦ absurd (ground arith) | inr (_, below) ↦ from below ],
        )
      ]

  -- A request that the skipper lets be checked, and whose object can be decoded, is admitted exactly
  -- when it has an organization and either the quota is not validated, or the organization has fewer
  -- namespaces than its limit: the number of its override or, where there is none, the legacy quota if
  -- its flag is set, whether or not a profile is selected, and otherwise the number of the selected
  -- profile. So a request is refused when there is neither the flag nor a selected profile, whatever
  -- the legacy quota is.
  pub handle-IsBelowLimit_iff :
      (req : Request) (raw : Unstructured)
      → IsChecked (v.skipper req)
      → v.decoder.decode req ≡ ok raw
      → (is_allowed (handle v req) ≡ true) ↔ (
          (org : String) × IsOrganization req raw org
          × ((v.skip_validate_quota ≡ true) ⊎ ((v.skip_validate_quota ≡ false) × IsBelowLimit org)))
  unfolding handle
  handle-IsBelowLimit_iff req raw checked decoded =
      let (to, from) =
        and_then_iff (organization_name v req raw)
          (λ org.
            if v.skip_validate_quota
            then allowed (text "skipped quota validation")
            else and_then (base_limit v)
                λ base. and_then (limit_for v org base) (check_count v org))
          (organization_name-Refuses req raw) in
      rw (checked, decoded)
        (
          λ h.
              let (org, e, a) = to h in
              (org, (organization_name_iff req raw org).0 e, (check_organization_iff org).0 a),
          λ (org, named, fits). from (
            org,
            (organization_name_iff req raw org).1 named,
            (check_organization_iff org).1 fits,
          ),
        )
