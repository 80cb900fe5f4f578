-- ===== src/Controllers/QuotaTransformer/Tests.antt =====
-- The overrides of one namespace, and the theorems there.
use mathlib.Core.Path.{subst}
use appuio_cloud_agent.Base.{
  String, String-cases, Any, true, false, ◌≡◌, inl, inr, lookup, eq_iff, ◌≢◌, refl, sym, ap, ◌∙◌,
  [], ◌∷◌, In, Option, none, some, Dict, ◌==◌, cut, cut_prefix, trim_suffix, contains_text,
  replace_all, arith,
}
use appuio_cloud_agent.Kube.{Error, external, Result, ok, err, Namespace, first_only}
use appuio_cloud_agent.Kube.Memory.{pair_keys, memory}
use appuio_cloud_agent.Controllers.LegacyQuota.{LegacyResourceQuotaReconciler, underscored}
use appuio_cloud_agent.Controllers.ProfileApply.{Object}
use appuio_cloud_agent.Controllers.QuotaTransformer.{
  Kv, new_resource_quota_transformer, resource_quota_v1_gvk, on_key, overrides_from_obj, transform,
}
use appuio_cloud_agent.Controllers.QuotaTransformer.Overrides.{Sets}
use appuio_cloud_agent.Controllers.QuotaTransformer.Applied.{HardFields, transform-hard}
use appuio_cloud_agent.Controllers.LegacyQuota.Hard.{override}

abbrev acme : Namespace
acme = record {
  name = "acme";
  labels = [];
  annotations = ("q.io/compute.limits_cpu", "8") ∷ ("q.io/compute.requests_cpu", "1") ∷ [];
  deleting = false;
}

abbrev unmarshal : String → Result (Dict String)
unmarshal _ = err (external "json")

-- The content of an object is `spec.hard`.
abbrev set : Dict String → String → String → Dict String × Option Error
set hard k v = ((k, v) ∷ hard, none)

abbrev quota : Object (Dict String)
quota = record {
  gvk = resource_quota_v1_gvk;
  namespace = "acme";
  name = "compute";
  labels = [];
  owner = none;
  content = [];
}

sets :
    (transform unmarshal first_only set
      (new_resource_quota_transformer "q.io")
      quota
      acme).0.content
    ≡ ("requests/cpu", "1") ∷ ("limits/cpu", "8") ∷ []
unfolding transform overrides_from_obj trim_suffix cut_prefix cut replace_all contains_text
sets = refl

-- The controller of legacy quotas, with the same base.
abbrev legacy : LegacyResourceQuotaReconciler String Unit String
legacy = record {
  quotas = memory pair_keys (λ q. some q);
  limits = memory pair_keys (λ l. some l);
  get_namespace = λ _. ok acme;
  parse_quantity = λ s. ok s;
  unmarshal = λ _. err (external "json");
  set_controller_reference = λ ns os. ok (ns ∷ []);
  no_quota = record { hard = []; rest = tt };
  no_limit = "";
  organization_label = "appuio.io/organization";
  resource_quota_annotation_base = "q.io";
  default_resource_quotas = [];
  limit_range_name = "range";
  default_limit_range = "";
}

trimmed : trim_suffix b'/' "q.io" ≡ "q.io"
unfolding trim_suffix
trimmed = refl

underscored_limit : underscored "limits/cpu" ≡ "limits_cpu"
unfolding replace_all
underscored_limit = refl

reads : override first_only legacy "compute" acme "limits/cpu" ≡ "8"
unfolding replace_all
reads = refl

not_storage : underscored "limits/cpu" ≢ "storageclasses"
not_storage h =
    let e : false ≡ true = ap (λ s. s == "storageclasses") (sym underscored_limit ∙ h) in
    absurd (ground arith)

not_blank : override first_only legacy "compute" acme "limits/cpu" ≢ ""
not_blank h = let e : false ≡ true = ap (λ s. s == "") (sym reads ∙ h) in absurd (ground arith)

abbrev fields : HardFields (Dict String)
fields = record {
  hard = λ hard k. lookup k hard;
  set_nested_field = set;
  set-hard = λ hard k v fine. rw ((eq_iff k k).1 refl) refl;
  set-hard_ne = λ hard k j v other. rw (ne_beq k j other) refl;
}
  where
    ne_beq : (k j : String) → k ≢ j → (k == j) ≡ false
    ne_beq k j other = elim (String-cases k j) [ inl same ↦ absurd (other same) | inr e ↦ e ]

abbrev base : String
base = new_resource_quota_transformer "q.io"

-- How the two annotations are read.
first_prefix : cut_prefix base "q.io/compute.limits_cpu" ≡ some "compute.limits_cpu"
unfolding cut_prefix trim_suffix
first_prefix = refl

first_cut : cut b'.' "compute.limits_cpu" ≡ some ("compute", "limits_cpu")
unfolding cut
first_cut = refl

first_key : on_key unmarshal "limits_cpu" "8" ≡ ok (record { k = "limits/cpu"; v = "8" } ∷ [])
unfolding replace_all
first_key = refl

second_prefix : cut_prefix base "q.io/compute.requests_cpu" ≡ some "compute.requests_cpu"
unfolding cut_prefix trim_suffix
second_prefix = refl

second_cut : cut b'.' "compute.requests_cpu" ≡ some ("compute", "requests_cpu")
unfolding cut
second_cut = refl

second_key : on_key unmarshal "requests_cpu" "1" ≡ ok (record { k = "requests/cpu"; v = "1" } ∷ [])
unfolding replace_all
second_key = refl

-- An annotation whose parts are known sets nothing but what its key says.
listed_there :
    (annotation suffix key v w : String) (made : Kv)
    → cut_prefix base annotation ≡ some suffix
    → cut b'.' suffix ≡ some ("compute", key)
    → on_key unmarshal key v ≡ ok (made ∷ [])
    → Sets unmarshal base "compute" (record { k = "limits/cpu"; v = w }) (annotation, v)
    → made ≡ record { k = "limits/cpu"; v = w }
listed_there annotation suffix key v w made prefix split read
      (s, prefix', (key', split', (kvs, read', listed))) =
    let s_same : s ≡ suffix =
      (let e : some s ≡ some suffix = sym prefix' ∙ prefix in ground arith) in
    let parts : ◌≡◌ {A = Option (String × String)} (some ("compute", key'))
        (some ("compute", key)) =
      sym split' ∙ ap (cut b'.') s_same ∙ split in
    let key_same : key' ≡ key = ground arith in
    let kvs_same : kvs ≡ made ∷ [] =
      (let e : ok kvs ≡ ok (made ∷ []) =
          sym read' ∙ ap (λ (j : String). on_key unmarshal j v) key_same ∙ read in
        ground arith) in
    elim (subst (In (record { k = "limits/cpu"; v = w })) kvs_same listed) [
      | inl this ↦ this
      | inr never ↦ absurd never
    ]

only_value :
    (w : String)
    → Any (Sets unmarshal base "compute" (record { k = "limits/cpu"; v = w })) acme.annotations
    → w ≡ override first_only legacy "compute" acme "limits/cpu"
only_value w (inl first) =
    sym (
      ap (λ (z : Kv). z.v)
        (listed_there "q.io/compute.limits_cpu" "compute.limits_cpu" "limits_cpu" "8" w
          (record { k = "limits/cpu"; v = "8" }) first_prefix first_cut first_key first))
    ∙ sym reads
only_value w (inr (inl second)) =
    let same =
      listed_there "q.io/compute.requests_cpu" "compute.requests_cpu" "requests_cpu" "1" w
        (record { k = "requests/cpu"; v = "1" }) second_prefix second_cut second_key second in
    let e : true ≡ false = ap (λ (z : Kv). z.k == "requests/cpu") same in absurd (ground arith)
only_value w (inr (inr never)) = absurd never

works : (transform unmarshal first_only set base quota acme).1 ≡ none
unfolding transform overrides_from_obj trim_suffix cut_prefix cut replace_all contains_text
works = refl

transform-hard_example :
    lookup "limits/cpu" (transform unmarshal first_only set base quota acme).0.content
    ≡ some (override first_only legacy "compute" acme "limits/cpu")
transform-hard_example =
    transform-hard unmarshal first_only fields legacy quota acme "limits/cpu" trimmed
      (refl, (refl, (refl, (refl, (refl, (refl, (refl, tt)))))))
      (refl, (refl, (refl, (refl, (refl, (refl, (refl, (refl, (refl, (refl, tt)))))))))) not_storage
      refl not_blank only_value works
