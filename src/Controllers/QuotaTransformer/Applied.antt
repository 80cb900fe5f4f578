-- ===== src/Controllers/QuotaTransformer/Applied.antt =====
-- controllers/transformers/resourcequota.go: what the transformer leaves on a quota.

use appuio_cloud_agent.Base.{
  String, String-cases, eq_iff, not, ◌≡◌, ◌≢◌, refl, sym, ap, ◌∙◌, ◌⊎◌, inl, inr, List, [], ◌∷◌,
  Option, none, some, In, Any, Dict, lookup, if_else, trim_suffix, Lacks, arith,
}
use appuio_cloud_agent.Kube.{Error, Result, Namespace, Multierr, combine-none}
use appuio_cloud_agent.Controllers.ProfileApply.{gvk_beq, Object}
use appuio_cloud_agent.Controllers.ProfileApply.Watches.{gvk_beq_iff}
use appuio_cloud_agent.Controllers.LegacyQuota.{LegacyResourceQuotaReconciler, underscored}
use appuio_cloud_agent.Controllers.LegacyQuota.Hard.{override}
use appuio_cloud_agent.Controllers.QuotaTransformer.{
  Kv, new_resource_quota_transformer, overrides_from_obj, with_error, set_all, on_overrides,
  transform, or_nil,
}
use appuio_cloud_agent.Controllers.QuotaTransformer.Overrides.{Sets, In-overrides_from_obj_iff}
use appuio_cloud_agent.Controllers.QuotaTransformer.Legacy.{override-In}

-- `SetNestedField` below `spec.hard`, with what its documentation promises: without an error the field
-- has the value, and no other field changes in any case.
pub record HardFields (C : Type 0) : Type 0 where
  pub hard : C → String → Option String
  pub set_nested_field : C → String → String → C × Option Error
  pub set-hard :
      (c : C) (k v : String)
      → (set_nested_field c k v).1 ≡ none
      → hard (set_nested_field c k v).0 k ≡ some v
  pub set-hard_ne : (c : C) (k j v : String) → k ≢ j → hard (set_nested_field c k v).0 j ≡ hard c j

module _ {C : Type 0} (unmarshal : String → Result (Dict String)) (multierr : Multierr)
    (fields : HardFields C) where
  open fields use {hard, set_nested_field}

  kv_of : (k : String) (ov : Kv) → ov.k ≡ k → ov ≡ record { k = k; v = ov.v }
  kv_of k ov same = ground arith

  abbrev loop : List Kv → C → C × List Error
  loop = set_all unmarshal multierr set_nested_field

  with_error-nil :
      (e : Option Error) (es : List Error)
      → with_error unmarshal multierr set_nested_field e es ≡ []
      → (e ≡ none) × (es ≡ [])
  with_error-nil none es h = (refl, h)
  with_error-nil (some e) es h = absurd (ground arith)

  -- A value that is set, and is the only one for its field, is there in the end.
  set_all-hard :
      (k v : String) (ovs : List Kv) (c : C)
      → (loop ovs c).1 ≡ []
      → ((w : String) → In (record { k = k; v = w }) ovs → w ≡ v)
      → In (record { k = k; v = v }) ovs ⊎ (hard c k ≡ some v)
      → hard (loop ovs c).0 k ≡ some v
  set_all-hard k v [] c fine only (inl never) = absurd never
  set_all-hard k v [] c fine only (inr there) = there
  set_all-hard k v (ov ∷ ovs) c fine only h =
      let put = set_nested_field c ov.k ov.v in
      let (put_fine, rest_fine) = with_error-nil put.1 (loop ovs put.0).1 fine in
      let rest = set_all-hard k v ovs put.0 rest_fine (λ w there. only w (inr there)) in
      elim (String-cases ov.k k) [
        | inl same ↦
            (let value : ov.v ≡ v = only ov.v (inl (kv_of k ov same)) in
              rest (
                inr (
                  ap (hard put.0) (sym same)
                  ∙ fields.set-hard c ov.k ov.v put_fine
                  ∙ ap some value)))
        | inr e ↦
            let other : ov.k ≢ k = λ same. absurd (ground (arith, eq_iff ov.k k)) in
            rest (elim h [
              | inl listed ↦ elim listed [
                | inl this ↦ absurd (other (ap (λ (z : Kv). z.k) this))
                | inr later ↦ inl later
              ]
              | inr there ↦ inr (fields.set-hard_ne c ov.k k ov.v other ∙ there)
            ])
      ]

  on_overrides-hard :
      (k v : String) (o : Option (List Kv)) (u : Object C) (parse_err : Option Error)
      → (on_overrides unmarshal multierr set_nested_field o u parse_err).1 ≡ none
      → ((w : String) → In (record { k = k; v = w }) (or_nil o) → w ≡ v)
      → In (record { k = k; v = v }) (or_nil o)
      → hard (on_overrides unmarshal multierr set_nested_field o u parse_err).0.content k ≡ some v
  on_overrides-hard k v none u parse_err fine only listed = absurd listed
  on_overrides-hard k v (some ovs) u parse_err fine only listed =
      let all = with_error-nil parse_err (loop ovs u.content).1 (combine-none multierr _ fine) in
      set_all-hard k v ovs u.content all.1 only (inl listed)

  -- For a base that does not end in a slash, a quota whose name has no dot, and a resource without an
  -- underscore that is not called storageclasses: if the controller of legacy quotas reads a value from
  -- the annotations of the namespace, the annotations set no other value for this resource, and the
  -- transformer returns no error for the quota, then the quota it leaves has that value for the resource.
  pub transform-hard :
      {Q S L : Type 0} (r : LegacyResourceQuotaReconciler Q S L) (u : Object C) (ns : Namespace)
      (k : String)
      → trim_suffix b'/' r.resource_quota_annotation_base ≡ r.resource_quota_annotation_base
      → Lacks b'.' u.name
      → Lacks b'_' k
      → underscored k ≢ "storageclasses"
      → u.gvk ≡ record { group = ""; version = "v1"; kind = "ResourceQuota" }
      → override multierr r u.name ns k ≢ ""
      → ((w : String)
          → Any
              (Sets unmarshal
                (new_resource_quota_transformer r.resource_quota_annotation_base)
                u.name
                (record { k = k; v = w }))
              ns.annotations
          → w ≡ override multierr r u.name ns k)
      → (transform unmarshal multierr set_nested_field
          (new_resource_quota_transformer r.resource_quota_annotation_base)
          u
          ns).1
        ≡ none
      → hard
          (transform unmarshal multierr set_nested_field
            (new_resource_quota_transformer r.resource_quota_annotation_base)
            u
            ns).0.content
          k
        ≡ some (override multierr r u.name ns k)
  unfolding transform
  transform-hard r u ns k trimmed whole plain other quota set only fine =
      let base = new_resource_quota_transformer r.resource_quota_annotation_base in
      let parsed = overrides_from_obj unmarshal base ns.annotations ([], []) in
      let v = override multierr r u.name ns k in
      let is_quota = ap not (
        (gvk_beq_iff u.gvk (record { group = ""; version = "v1"; kind = "ResourceQuota" })).1
          quota) in
      let same =
        if_else
          (not (gvk_beq u.gvk (record { group = ""; version = "v1"; kind = "ResourceQuota" })))
          (u, none)
          (on_overrides unmarshal multierr set_nested_field (lookup u.name parsed.0) u
            (multierr.combine parsed.1))
          is_quota in
      ap (λ x. hard x.0.content k) same
      ∙ on_overrides-hard k v (lookup u.name parsed.0) u (multierr.combine parsed.1)
          (sym (ap (λ x. x.1) same) ∙ fine)
          (λ w listed.
            elim ((In-overrides_from_obj_iff unmarshal base u.name (record { k = k; v = w })
                ns.annotations ([], [])).0
              listed) [ inl never ↦ absurd never | inr asked ↦ only w asked ])
          (override-In multierr r unmarshal u.name ns k trimmed whole plain other set)
