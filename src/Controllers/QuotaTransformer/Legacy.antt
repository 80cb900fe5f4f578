-- ===== src/Controllers/QuotaTransformer/Legacy.antt =====
-- controllers/transformers/resourcequota.go reads what controllers/legacy_resource_quota_controller.go
-- reads.
use Prim.Native.Char.{Char, code}
use Prim.Native.String.{[] as str_nil, ◌∷◌ as str_cons, ◌++◌ as str_append}
use mathlib.Core.Path.{subst}
use text.Mathlib.TextEquality.{Char-path}
use text.Mathlib.TextLemmas.{nil-append, cons-append, append_assoc}
use appuio_cloud_agent.Base.{
  String, String-cases, Bool-cases, nat_beq, ◌≡◌, ◌≢◌, refl, sym, ap, ◌∙◌, inl, inr, [], ◌∷◌, Any,
  In, if_else, eq_of_ne, Option-cases, some, Dict, lookup, or_empty, eq_iff, ◌==◌, cut, cut-append,
  cut_prefix, cut_prefix-append, trim_suffix, replace_all, Lacks, arith,
}
use appuio_cloud_agent.Kube.{Result, ok, Namespace, Multierr}
use appuio_cloud_agent.Controllers.LegacyQuota.{
  LegacyResourceQuotaReconciler, annotation, underscored,
}
use appuio_cloud_agent.Controllers.LegacyQuota.Hard.{override}
use appuio_cloud_agent.Controllers.QuotaTransformer.{
  new_resource_quota_transformer, overrides_from_obj,
}
use appuio_cloud_agent.Controllers.QuotaTransformer.Overrides.{at, Sets, In-overrides_from_obj_iff}

one_append : (c : Char) (s : String) → str_append (str_cons c str_nil) s ≡ str_cons c s
one_append c s = cons-append c str_nil s ∙ ap (str_cons c) (nil-append s)

-- Replacing "/" by "_" and back.
slashed-underscored : (k : String) → Lacks b'_' k → replace_all b'_' "/" (underscored k) ≡ k
unfolding replace_all
slashed-underscored str_nil h = refl
slashed-underscored (str_cons c k) (h, hs) = elim (Bool-cases (nat_beq (code c) b'/')) [
  | inl slash ↦
      let is_slash : "/" ≡ c = Char-path "/" c (ground arith) in
      rw slash (
        ap (replace_all b'_' "/") (one_append "_" (underscored k))
        ∙ one_append "/" (replace_all b'_' "/" (underscored k))
        ∙ ap (λ d. str_cons d (replace_all b'_' "/" (underscored k))) is_slash
        ∙ ap (str_cons c) (slashed-underscored k hs))
  | inr plain ↦ rw plain (rw h (ap (str_cons c) (slashed-underscored k hs)))
]

lookup-Any :
    (P : String × String → Type 0) (k v : String) (m : Dict String)
    → P (k, v)
    → lookup k m ≡ some v
    → Any P m
lookup-Any P k v [] p h = absurd (ground arith)
lookup-Any P k v ((i, w) ∷ m) p h = elim (String-cases i k) [
  | inl same ↦
      let values : some w ≡ some v = rw ((eq_iff i k).1 same) at h in
      let equal : (k, v) ≡ (i, w) = ground arith in inl (subst P equal p)
  | inr other ↦ inr (lookup-Any P k v m p (rw other at h))
]

module _ (unmarshal : String → Result (Dict String)) where
  -- The annotation for a quota and a resource sets that resource on that quota.
  annotation-Sets :
      (base name k v : String)
      → trim_suffix b'/' base ≡ base
      → Lacks b'.' name
      → Lacks b'_' k
      → underscored k ≢ "storageclasses"
      → Sets unmarshal
          (new_resource_quota_transformer base)
          name
          (record { k = k; v = v })
          (annotation base name (underscored k), v)
  annotation-Sets base name k v trimmed whole plain other = (
    str_append name (str_append "." (underscored k)),
    ap (λ b. cut_prefix (str_append b "/") (annotation base name (underscored k))) trimmed
        ∙ ap (cut_prefix (str_append base "/"))
            (sym (append_assoc base "/" (str_append name (str_append "." (underscored k)))))
        ∙ cut_prefix-append (str_append base "/")
            (str_append name (str_append "." (underscored k))),
    (
      underscored k,
      ap (λ s. cut b'.' (str_append name s)) (one_append "." (underscored k))
          ∙ cut-append b'.' name "." (underscored k) whole refl,
      (
        record { k = k; v = v } ∷ [],
        if_else (underscored k == "storageclasses") _ _
              (eq_of_ne (underscored k) "storageclasses" other)
            ∙ ap (λ s. ok (record { k = s; v = v } ∷ [])) (slashed-underscored k plain),
        inl refl,
      ),
    ),
  )

-- The value of the annotation for a quota and a resource, as the controller of legacy quotas reads it,
-- is listed among the overrides of that name for that resource.
pub override-In :
    {Q S L : Type 0} (multierr : Multierr) (r : LegacyResourceQuotaReconciler Q S L)
    (unmarshal : String → Result (Dict String)) (name : String) (ns : Namespace) (k : String)
    → trim_suffix b'/' r.resource_quota_annotation_base ≡ r.resource_quota_annotation_base
    → Lacks b'.' name
    → Lacks b'_' k
    → underscored k ≢ "storageclasses"
    → override multierr r name ns k ≢ ""
    → In
        (record { k = k; v = override multierr r name ns k })
        (at name
          (overrides_from_obj unmarshal
            (new_resource_quota_transformer r.resource_quota_annotation_base)
            ns.annotations
            ([], [])).0)
override-In multierr r unmarshal name ns k trimmed whole plain other set =
    let base = r.resource_quota_annotation_base in
    let an = annotation base name (underscored k) in
    elim (Option-cases (lookup an ns.annotations)) [
      | inl missing ↦ absurd (set (ap or_empty missing))
      | inr (v, there) ↦
          (In-overrides_from_obj_iff unmarshal (new_resource_quota_transformer base) name
              (record { k = k; v = override multierr r name ns k }) ns.annotations ([], [])).1
            (inr (
              lookup-Any
                (Sets unmarshal (new_resource_quota_transformer base) name
                  (record { k = k; v = override multierr r name ns k }))
                an (override multierr r name ns k) ns.annotations
                (annotation-Sets unmarshal base name k (override multierr r name ns k) trimmed whole
                  plain other)
                (there ∙ ap some (sym (ap or_empty there)))))
    ]
