-- ===== src/Webhooks/Metadata.antt =====
-- webhooks/namespace_metadata_validator.go
pub mod Changed
pub mod Laws
use appuio_cloud_agent.Base.{
  String, Bool, true, false, not, List, [], ◌∷◌, ◌++◌, Option, none, some, Dict, lookup, ◌==◌,
  if◌then◌else◌, any,
}
use appuio_cloud_agent.Kube.{
  Error, errorf, wrapf, Message, text, lit, str, quoted, strs, dict, cause, end, Result, ok, err,
  Request, Response, allowed, denied, errored, Decoder, Unstructured, empty_object, StringSet,
  Multierr,
}
use appuio_cloud_agent.Skipper.Skip.{Skipper}
use appuio_cloud_agent.Webhooks.Guard.{unless_skipped, attempt}

pub record NamespaceMetadataValidator : Type 0 where
  pub decoder : Decoder Unstructured
  pub skipper : Skipper
  pub reserved_namespaces : List String
  pub allowed_annotations : List String
  pub allowed_labels : List String

-- `!ok || v != w` for `w, ok := m[k]`
abbrev pub differs : String → Option String → Bool
differs v none = true
differs v (some w) = not (v == w)

module _ (sets : StringSet) where
  open sets use {Carrier, empty, insert, list}

  -- One of the two loops: the keys of the first map whose value differs in the other.
  unfoldable pub insert_changed : Dict String → Dict String → Carrier → Carrier
  insert_changed [] other s = s
  insert_changed ((k, v) ∷ m) other s =
      insert_changed m other (if differs v (lookup k other) then insert k s else s)

  unfoldable pub changed_keys : Dict String → Dict String → List String
  changed_keys a b = list (insert_changed b a (insert_changed a b empty))

  module _ (match : String → String → Bool) (multierr : Multierr) where
    -- The loop over the changed keys.
    abbrev pub violations : List String → String → List String → List Error
    violations allowed_keys ref [] = []
    violations allowed_keys ref (k ∷ ks) =
        let rest = violations allowed_keys ref ks in
        if not (any (λ a. match a k) allowed_keys)
        then (errorf (str ref (lit " " (quoted k (lit " is not allowed to be changed" end))))
            ∷ rest)
        else rest

    unfoldable pub validate_changed_map :
        Dict String → Dict String → List String → String → Option Error
    validate_changed_map old new allowed_keys ref =
        multierr.combine (violations allowed_keys ref (changed_keys old new))

    abbrev pub format_denied_message :
        Error → String → List String → Dict String → Dict String → Message
    format_denied_message e map_ref allowed_keys new_map old_map =
        lit "The request was denied:\n\t" (
          cause e (
            lit "\nThe following " (
              str map_ref (
                lit " can be modified:\n\t" (
                  strs allowed_keys (
                    lit "\n" (
                      str map_ref (
                        lit " given:\n\t" (
                          dict new_map (
                            lit "\n" (
                              str map_ref (
                                lit " before modification:\n\t"
                                  (dict old_map (lit "\n" end))))))))))))))

    abbrev pub deny_on : Option Error → (Error → Message) → Response → Response
    deny_on none message rest = rest
    deny_on (some e) message rest = denied (message e)

    -- The old object, or the zero value where the request has none.
    abbrev pub decode_old : NamespaceMetadataValidator → Request → Result Unstructured
    decode_old v req =
        if req.old_object == "" then ok empty_object else v.decoder.decode_raw req.old_object

    -- The end of the handler, once both objects are decoded.
    unfoldable pub compare_objects :
        NamespaceMetadataValidator → Unstructured → Unstructured → Response
    compare_objects v old new =
        deny_on
          (validate_changed_map old.annotations new.annotations v.allowed_annotations "annotation")
          (λ e.
            format_denied_message e "annotations" v.allowed_annotations new.annotations
              old.annotations)
          (deny_on (validate_changed_map old.labels new.labels v.allowed_labels "label")
            (λ e. format_denied_message e "labels" v.allowed_labels new.labels old.labels)
            (allowed (text "allowed")))

    unfoldable pub handle : NamespaceMetadataValidator → Request → Response
    handle v req =
        unless_skipped (λ e. e) (v.skipper req)
          (if any (λ ns. match ns req.name) v.reserved_namespaces
            then denied (text "Changing or creating reserved namespaces is not allowed.")
            else attempt (decode_old v req)
                (λ e. errored 400 (wrapf (text "failed to decode old object: ") e))
                λ old.
                  attempt (v.decoder.decode req)
                    (λ e. errored 400 (wrapf (text "failed to decode object from request: ") e))
                    λ new. compare_objects v old new)
