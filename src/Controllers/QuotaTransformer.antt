-- ===== src/Controllers/QuotaTransformer.antt =====
-- controllers/transformers/resourcequota.go, on the objects of ProfileApply. Parameters are
-- `json.Unmarshal` into a map of strings, and `SetNestedField` under `spec.hard`.
pub mod Overrides
pub mod Legacy
pub mod Applied
mod Tests
use Prim.Native.String.{◌++◌ as str_append}
use appuio_cloud_agent.Base.{
  String, Bool, true, false, not, List, [], ◌∷◌, ◌++◌, Option, none, some, Dict, lookup, insert,
  ◌==◌, if◌then◌else◌, cut, cut_prefix, trim_suffix, contains_text, replace_all,
}
use appuio_cloud_agent.Kube.{
  Error, errorf, wrapf, text, lit, quoted, end, Result, ok, err, Multierr, Namespace,
}
use appuio_cloud_agent.Controllers.ProfileApply.{GroupVersionKind, gvk_beq, Object}

pub record Kv : Type 0 where
  pub k : String
  pub v : String

-- `LabelBase` of the transformer.
abbrev pub new_resource_quota_transformer : String → String
new_resource_quota_transformer label_base = str_append (trim_suffix b'/' label_base) "/"

abbrev pub resource_quota_v1_gvk : GroupVersionKind
resource_quota_v1_gvk = record { group = ""; version = "v1"; kind = "ResourceQuota" }

abbrev pub or_nil {ℓ} : {A : Type ℓ} → Option (List A) → List A
or_nil none = []
or_nil (some xs) = xs

-- `overrides[n] = append(overrides[n], x)`
abbrev pub push : String → Kv → Dict (List Kv) → Dict (List Kv)
push n x m = insert n (or_nil (lookup n m) ++ (x ∷ [])) m

abbrev pub push_all : String → List Kv → Dict (List Kv) → Dict (List Kv)
push_all n [] m = m
push_all n (x ∷ xs) m = push_all n xs (push n x m)

module _ (unmarshal : String → Result (Dict String)) where
  -- The loop over the map for storage classes.
  abbrev pub storage_classes : Dict String → List Kv
  storage_classes [] = []
  storage_classes ((k, v) ∷ conf) =
      let rest = storage_classes conf in
      if contains_text "storageclass.storage.k8s.io" k then record { k = k; v = v } ∷ rest else rest

  abbrev pub on_conf : Result (Dict String) → Result (List Kv)
  on_conf (ok conf) = ok (storage_classes conf)
  on_conf (err e) = err (wrapf (text "failed to unmarshal storageclasses: ") e)

  -- What an annotation for `key` adds.
  abbrev pub on_key : String → String → Result (List Kv)
  on_key key v =
      if key == "storageclasses"
      then on_conf (unmarshal v)
      else ok (record { k = replace_all b'_' "/" key; v = v } ∷ [])

  abbrev pub Parsed : Type 0
  Parsed = Dict (List Kv) × List Error

  abbrev pub add_all : String → Result (List Kv) → Parsed → Parsed
  add_all name (ok kvs) (ovs, errors) = (push_all name kvs ovs, errors)
  add_all name (err e) (ovs, errors) = (ovs, errors ++ (e ∷ []))

  abbrev pub on_cut : String → String → Option (String × String) → Parsed → Parsed
  on_cut k v none (ovs, errors) =
      (ovs, errors ++ (errorf (lit "invalid annotation " (quoted k end)) ∷ []))
  on_cut k v (some (obj_name, key)) parsed = add_all obj_name (on_key key v) parsed

  abbrev pub on_suffix : String → String → Option String → Parsed → Parsed
  on_suffix k v none parsed = parsed
  on_suffix k v (some suffix) parsed = on_cut k v (cut b'.' suffix) parsed

  -- The loop over the annotations.
  unfoldable pub overrides_from_obj : String → Dict String → Parsed → Parsed
  overrides_from_obj base [] parsed = parsed
  overrides_from_obj base ((k, v) ∷ annotations) parsed =
      overrides_from_obj base annotations (on_suffix k v (cut_prefix base k) parsed)

  module _ {C : Type 0} (multierr : Multierr)
      (set_nested_field : C → String → String → C × Option Error) where
    abbrev pub with_error : Option Error → List Error → List Error
    with_error none es = es
    with_error (some e) es = e ∷ es

    abbrev pub set_all : List Kv → C → C × List Error
    set_all [] c = (c, [])
    set_all (ov ∷ ovs) c =
        let (c', e) = set_nested_field c ov.k ov.v in
        let (c'', es) = set_all ovs c' in (c'', with_error e es)

    abbrev pub on_overrides : Option (List Kv) → Object C → Option Error → Object C × Option Error
    on_overrides none u parse_err = (u, parse_err)
    on_overrides (some ovs) u parse_err =
        let (c, es) = set_all ovs u.content in
        (record u { content = c }, multierr.combine (with_error parse_err es))

    unfoldable pub transform : String → Object C → Namespace → Object C × Option Error
    transform base u ns =
        if not (gvk_beq u.gvk resource_quota_v1_gvk)
        then (u, none)
        else (let (parsed, errors) = overrides_from_obj base ns.annotations ([], []) in
            on_overrides (lookup u.name parsed) u (multierr.combine errors))
