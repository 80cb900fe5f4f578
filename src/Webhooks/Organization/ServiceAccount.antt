-- ===== src/Webhooks/Organization/ServiceAccount.antt =====
-- Requests of service accounts: `handleServiceAccountNamespace`.
use Prim.Native.String.{◌++◌, ◌∷◌}
use mathlib.Core.Path.{subst}
use text.Mathlib.TextLemmas.{nil-append, cons-append, append_assoc}
use appuio_cloud_agent.Base.{
  String, true, ◌≡◌, refl, sym, ◌≢◌, ◌↔◌, ◌⊎◌, inl, inr, ◌∙◌, ap, [], ◌∷◌, arith, index, some, ◌==◌,
  eq_iff, Bool-cases, if◌then◌else◌, split, join, split-join, Lacks,
}
use appuio_cloud_agent.Kube.{
  ok, Result-cases, is_allowed, patches, Request, Unstructured, Namespace, Subject,
}
use appuio_cloud_agent.Skipper.UserInfo.{service_account_name}
use appuio_cloud_agent.Webhooks.Pointer.{apply_patch}
use appuio_cloud_agent.Webhooks.Organization.{
  NamespaceProjectOrganizationMutator, org_label_patch, third_of_four, check_account_organization,
  account_namespace, handle_service_account_namespace,
}
use appuio_cloud_agent.Webhooks.Organization.Patch.{
  IsConsistent, patched_labels, org_label_patch-apply, label_after,
}

colon_append : (s : String) → ◌≡◌ {A = String} (":" ++ s) (":" ∷ s)
colon_append s = rw cons-append (rw nil-append refl)

joined_name :
    (a b ns name : String)
    → (((a ++ (":" ++ (b ++ ":"))) ++ ns) ++ ":") ++ name ≡ join ":" (a ∷ b ∷ ns ∷ name ∷ [])
unfolding join
joined_name a b ns name = simp append_assoc (simp (colon_append, join))

-- The namespace is read back from the name of a service account.
third_of_four-service_account_name :
    (s : Subject)
    → Lacks b':' s.namespace
    → Lacks b':' s.name
    → third_of_four (split b':' (service_account_name s)) ≡ some s.namespace
third_of_four-service_account_name s lns ln =
    ap (λ u. third_of_four (split b':' u))
      (joined_name "system" "serviceaccount" s.namespace s.name)
    ∙ ap third_of_four (
        split-join ":" "system" ("serviceaccount" ∷ s.namespace ∷ s.name ∷ [])
          (ground arith, (ground arith, (lns, (ln, tt)))))

module _ (m : NamespaceProjectOrganizationMutator) (raw : Unstructured) where
  -- The organization that the object asks for, if any, is the namespace's, which has one.
  abbrev pub FitsNamespace : Namespace → Type 0
  FitsNamespace ns =
      (index m.organization_label ns.labels ≢ "")
      × ((index m.organization_label raw.labels ≡ "")
          ⊎ (index m.organization_label raw.labels ≡ index m.organization_label ns.labels))

  check_account_organization_iff :
      (ns : Namespace)
      → (is_allowed (check_account_organization m raw ns) ≡ true) ↔ FitsNamespace ns
  check_account_organization_iff ns = ground (
    arith,
    eq_iff (index m.organization_label ns.labels) "",
    eq_iff (index m.organization_label raw.labels) "",
    eq_iff (index m.organization_label raw.labels) (index m.organization_label ns.labels),
  )

  check_account_organization-patches :
      (ns : Namespace)
      → is_allowed (check_account_organization m raw ns) ≡ true
      → patches (check_account_organization m raw ns) ≡ (
          if index m.organization_label raw.labels == ""
          then org_label_patch m raw (index m.organization_label ns.labels) ∷ []
          else [])
  check_account_organization-patches ns h = ground arith

  check_account_organization-label :
      (ns : Namespace)
      → IsConsistent raw
      → is_allowed (check_account_organization m raw ns) ≡ true
      → label_after m raw (check_account_organization m raw ns)
        ≡ index m.organization_label ns.labels
  unfolding patched_labels apply_patch
  check_account_organization-label ns consistent h =
      rw (check_account_organization-patches ns h)
        (elim (Bool-cases (index m.organization_label raw.labels == "")) [
          | inl unset ↦
              rw unset (org_label_patch-apply m raw (index m.organization_label ns.labels))
          | inr set ↦ rw set (
              sym (consistent m.organization_label)
              ∙ elim ((check_account_organization_iff ns).0 h).1 [
                | inl none_set ↦ absurd (ground (arith, (eq_iff _ _).1 none_set))
                | inr same ↦ same
              ])
        ])

  account_namespace_iff :
      (req : Request) (name : String)
      → (is_allowed (account_namespace m req raw (some name)) ≡ true)
        ↔ ((ns : Namespace) × (m.client.get_namespace name ≡ ok ns) × FitsNamespace ns)
  account_namespace_iff req name = elim (Result-cases (m.client.get_namespace name)) [
    | inl (ns, got) ↦
        let (to, from) = check_account_organization_iff ns in
        rw got (
          λ h. (ns, refl, to h),
          λ (ns', got', fits).
              from (let same : ns' ≡ ns = cc in subst (λ n. FitsNamespace n) same fits),
        )
    | inr (e, failed) ↦ (λ h. ground arith, λ (ns, got, fits). ground arith)
  ]

  account_namespace-label :
      (req : Request) (name : String)
      → IsConsistent raw
      → is_allowed (account_namespace m req raw (some name)) ≡ true
      → (ns : Namespace) × (m.client.get_namespace name ≡ ok ns)
        × (label_after m raw (account_namespace m req raw (some name))
            ≡ index m.organization_label ns.labels)
  account_namespace-label req name consistent h =
      elim (Result-cases (m.client.get_namespace name)) [
        | inl (ns, got) ↦
            (ns, got, rw got (check_account_organization-label ns consistent (rw got at h)))
        | inr (e, failed) ↦ absurd (ground arith)
      ]

-- The account's name, and neither its namespace's nor its own contains a ":".
pub record IsAccount (req : Request) (s : Subject) : Type 0 where
  pub named : req.user_info.username ≡ service_account_name s
  pub plain_namespace : Lacks b':' s.namespace
  pub plain_name : Lacks b':' s.name

module _ (m : NamespaceProjectOrganizationMutator) (raw : Unstructured) (req : Request)
    (s : Subject) (account : IsAccount req s) where
  handle_service_account_namespace-eq :
      handle_service_account_namespace m req raw ≡ account_namespace m req raw (some s.namespace)
  unfolding handle_service_account_namespace
  handle_service_account_namespace-eq =
      ap (λ u. account_namespace m req raw (third_of_four (split b':' u))) account.named
      ∙ ap (account_namespace m req raw)
          (third_of_four-service_account_name s account.plain_namespace account.plain_name)

  -- A service account's request for a namespace is admitted exactly when the account's namespace can
  -- be read, carries an organization, and the object asks for that organization or for none.
  pub handle_service_account_namespace_iff :
      (is_allowed (handle_service_account_namespace m req raw) ≡ true)
      ↔ ((ns : Namespace) × (m.client.get_namespace s.namespace ≡ ok ns) × FitsNamespace m raw ns)
  handle_service_account_namespace_iff =
      rw handle_service_account_namespace-eq (account_namespace_iff m raw req s.namespace)

  -- When the labels of the object are what its accessor returns and a service account's request is
  -- admitted, the label of the object, once the patch is applied, is the organization of the account's
  -- namespace.
  pub handle_service_account_namespace-label :
      IsConsistent raw
      → is_allowed (handle_service_account_namespace m req raw) ≡ true
      → (ns : Namespace) × (m.client.get_namespace s.namespace ≡ ok ns)
        × (label_after m raw (handle_service_account_namespace m req raw)
            ≡ index m.organization_label ns.labels)
  handle_service_account_namespace-label =
      rw handle_service_account_namespace-eq (account_namespace-label m raw req s.namespace)
