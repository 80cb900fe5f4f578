-- ===== src/Controllers/LegacyQuota/Hard.antt =====
-- controllers/legacy_resource_quota_controller.go: the quantities of a quota.
use mathlib.Core.Path.{subst}
use appuio_cloud_agent.Base.{
  String, String-cases, Bool-cases, true, false, ◌≡◌, ◌≢◌, refl, ◌⊎◌, inl, inr, [], ◌∷◌, append-nil,
  Option, none, some, Dict, lookup, index, ◌==◌, eq_iff, if◌then◌else◌, contains_text, arith,
}
use appuio_cloud_agent.Kube.{Result, ok, err, Namespace, or_given, Multierr}
use appuio_cloud_agent.Controllers.LegacyQuota.{
  LegacyResourceQuotaReconciler, annotation, underscored, on_storage, storage_annotation,
  storage_quotas, on_quantity, quantity_for, hard_for,
}

module _ {Q S L : Type 0} (multierr : Multierr) (r : LegacyResourceQuotaReconciler Q S L) where
  -- The quantities for storage classes that the annotation of the namespace names.
  abbrev pub IsStorage : String → Namespace → Dict Q → Type 0
  IsStorage name ns storage =
      ((storage_annotation multierr r name ns ≡ "") × (storage ≡ []))
      ⊎ ((storage_annotation multierr r name ns ≢ "")
          × (r.unmarshal (storage_annotation multierr r name ns) ≡ ok storage))

  -- The annotation that overrides the resource `k`.
  abbrev pub override : String → Namespace → String → String
  override name ns k =
      index (annotation r.resource_quota_annotation_base name (underscored k)) ns.annotations

  -- `p` is the quantity of the resource `k`, whose default is `q`.
  abbrev pub IsQuantity : String → Namespace → Dict Q → String → Q → Q → Type 0
  IsQuantity name ns storage k q p =
      ((contains_text "storageclass.storage.k8s.io" k ≡ true)
        × ((lookup k storage ≡ some p) ⊎ ((lookup k storage ≡ none) × (p ≡ q))))
      ⊎ ((contains_text "storageclass.storage.k8s.io" k ≡ false)
          × (((override name ns k ≡ "") × (p ≡ q))
              ⊎ ((override name ns k ≢ "") × (r.parse_quantity (override name ns k) ≡ ok p))))

  -- The same for what two quotas hold for a resource: the default one, and the one that is set.
  abbrev pub IsQuantityFor : String → Namespace → Dict Q → String → Option Q → Option Q → Type 0
  IsQuantityFor name ns storage k none o = o ≡ none
  IsQuantityFor name ns storage k (some q) o =
      (p : Q) × (o ≡ some p) × IsQuantity name ns storage k q p

  or_given-cases :
      (q : Q) (o : Option Q) → (o ≡ some (or_given q o)) ⊎ ((o ≡ none) × (or_given q o ≡ q))
  or_given-cases q none = inr (refl, refl)
  or_given-cases q (some p) = inl refl

  on_quantity-ok :
      (an a : String) (q : Q) (x : Result Q)
      → (on_quantity multierr r an a q x).1 ≡ []
      → x ≡ ok (on_quantity multierr r an a q x).0
  on_quantity-ok an a q (ok p) h = refl
  on_quantity-ok an a q (err e) h = absurd (ground arith)

  on_storage-ok :
      (x : Result (Dict Q)) → (on_storage multierr r x).1 ≡ [] → x ≡ ok (on_storage multierr r x).0
  on_storage-ok (ok q) h = refl
  on_storage-ok (err e) h = absurd (ground arith)

  -- Without an error, these are the quantities that the annotation names.
  pub storage_quotas-IsStorage :
      (name : String) (ns : Namespace)
      → (storage_quotas multierr r name ns).1 ≡ []
      → IsStorage name ns (storage_quotas multierr r name ns).0
  storage_quotas-IsStorage name ns = go (storage_annotation multierr r name ns)
    where
      go :
          (a : String)
          → (if a == "" then ([], []) else on_storage multierr r (r.unmarshal a)).1 ≡ []
          → ((a ≡ "")
              × ((if a == "" then ([], []) else on_storage multierr r (r.unmarshal a)).0 ≡ []))
            ⊎ ((a ≢ "")
                × (r.unmarshal a
                    ≡ ok (if a == "" then ([], []) else on_storage multierr r (r.unmarshal a)).0))
      go a = elim (Bool-cases (a == "")) [
        | inl blank ↦ rw blank (λ h. inl ((eq_iff a "").0 blank, refl))
        | inr set ↦
            rw set (λ h.
              inr (λ e. absurd (ground (arith, eq_iff a "")), on_storage-ok (r.unmarshal a) h))
      ]

  quantity_for-IsQuantity :
      (name : String) (ns : Namespace) (storage : Dict Q) (k : String) (q : Q)
      → (quantity_for multierr r name ns storage k q).1 ≡ []
      → IsQuantity name ns storage k q (quantity_for multierr r name ns storage k q).0
  quantity_for-IsQuantity name ns storage k q =
      elim (Bool-cases (contains_text "storageclass.storage.k8s.io" k)) [
        | inl class ↦ rw class (λ h. inl (refl, or_given-cases q (lookup k storage)))
        | inr plain ↦ rw plain (elim (Bool-cases (override name ns k == "")) [
          | inl blank ↦
              rw blank (λ h. inr (refl, inl ((eq_iff (override name ns k) "").0 blank, refl)))
          | inr set ↦ rw set (λ h. inr (
            refl,
            inr (
              λ e. absurd (ground (arith, eq_iff (override name ns k) "")),
              on_quantity-ok (annotation r.resource_quota_annotation_base name (underscored k))
                  (override name ns k) q (r.parse_quantity (override name ns k)) h,
            ),
          ))
        ])
      ]

  -- Without an error, each resource of the default has its quantity, and no other has one.
  pub hard_for-IsQuantity :
      (name : String) (ns : Namespace) (storage h : Dict Q) (k : String)
      → (hard_for multierr r name ns storage h).1 ≡ []
      → IsQuantityFor name ns storage k
          (lookup k h)
          (lookup k (hard_for multierr r name ns storage h).0)
  hard_for-IsQuantity name ns storage [] k e = refl
  hard_for-IsQuantity name ns storage ((i, q) ∷ h) k e =
      let (fine, later) =
        append-nil (quantity_for multierr r name ns storage i q).1
          (hard_for multierr r name ns storage h).1 e in
      elim (String-cases i k) [
        | inl same ↦ rw ((eq_iff i k).1 same) (
          (quantity_for multierr r name ns storage i q).0,
          refl,
          subst
              (λ j. IsQuantity name ns storage j q (quantity_for multierr r name ns storage i q).0)
              same (quantity_for-IsQuantity name ns storage i q fine),
        )
        | inr other ↦ rw other (hard_for-IsQuantity name ns storage h k later)
      ]
