-- ===== src/Webhooks/Organization/Patch.antt =====
-- The label of an object after the patch of a response has been applied.
use appuio_cloud_agent.Base.{
  split, String, ◌≡◌, refl, eq_refl, [], ◌∷◌, Option, none, some, Dict, lookup-insert, insert,
  index, arith,
}
use appuio_cloud_agent.Kube.{
  Response, patches, string, string_map, Unstructured, found, missing, mistyped, Found,
}
use appuio_cloud_agent.Webhooks.Pointer.{apply_add, apply_patch, tokens, unescape_from}
use appuio_cloud_agent.Webhooks.Pointer.Laws.{tokens-join, IsPlain}
use appuio_cloud_agent.Webhooks.Organization.{
  NamespaceProjectOrganizationMutator, label_operation, org_label_patch,
}

abbrev pub map_of : Found (Dict String) → Option (Dict String)
map_of (found m) = some m
map_of _ = none

-- The labels of an object, or none where it has no map of labels.
abbrev pub labels_field : Unstructured → Option (Dict String)
labels_field raw = map_of (raw.nested_string_map ("metadata" ∷ "labels" ∷ []))

abbrev pub index_of : String → Option (Dict String) → String
index_of k none = ""
index_of k (some m) = index k m

-- The accessor for labels agrees with the field.
abbrev pub IsConsistent : Unstructured → Type 0
IsConsistent raw = (k : String) → index k raw.labels ≡ index_of k (labels_field raw)

-- The labels after the patch of a response.
unfoldable pub patched_labels : Response → Unstructured → Option (Dict String)
patched_labels r raw = apply_patch ("metadata" ∷ "labels" ∷ []) (patches r) (labels_field raw)

index-insert_self : (k v : String) (m : Dict String) → index_of k (some (insert k v m)) ≡ v
index-insert_self k v m = rw (lookup-insert k k v m) (rw (eq_refl k) refl)

-- "metadata" and "labels" are read as they are written.
segments-IsPlain : IsPlain "metadata" × IsPlain "labels"
unfolding unescape_from
segments-IsPlain = ((ground arith, refl), (ground arith, refl))

-- Setting a member of a map of labels that is there.
add-member :
    (path k v : String) (m : Dict String)
    → tokens path ≡ "metadata" ∷ "labels" ∷ k ∷ []
    → apply_add
        ("metadata" ∷ "labels" ∷ [])
        (record { operation = "add"; path = path; value = string v })
        (some m)
      ≡ some (insert k v m)
unfolding apply_add
add-member path k v m e = rw e refl

-- Setting the map of labels itself.
add-map :
    (m : Dict String) (old : Option (Dict String))
    → apply_add
        ("metadata" ∷ "labels" ∷ [])
        (record { operation = "add"; path = "/metadata/labels"; value = string_map m })
        old
      ≡ some m
unfolding apply_add tokens split unescape_from
add-map m old = refl

label_operation-apply :
    (m : NamespaceProjectOrganizationMutator) (org : String) (f : Found (Dict String))
    → index_of m.organization_label
        (apply_patch ("metadata" ∷ "labels" ∷ []) (label_operation m org f ∷ []) (map_of f))
      ≡ org
unfolding apply_patch
label_operation-apply m org (found old) =
    rw
      (add-member _ m.organization_label org old (
        tokens-join "metadata" "labels" m.organization_label segments-IsPlain.0 segments-IsPlain.1))
      (index-insert_self m.organization_label org old)
label_operation-apply m org missing =
    rw (add-map ((m.organization_label, org) ∷ []) none) (rw (eq_refl m.organization_label) refl)
label_operation-apply m org (mistyped e) =
    rw (add-map ((m.organization_label, org) ∷ []) none) (rw (eq_refl m.organization_label) refl)

-- The patch sets the label, whether the object has labels or not.
pub org_label_patch-apply :
    (m : NamespaceProjectOrganizationMutator) (raw : Unstructured) (org : String)
    → index_of m.organization_label (
        apply_patch
          ("metadata" ∷ "labels" ∷ [])
          (org_label_patch m raw org ∷ [])
          (labels_field raw))
      ≡ org
unfolding org_label_patch
org_label_patch-apply m raw org =
    label_operation-apply m org (raw.nested_string_map ("metadata" ∷ "labels" ∷ []))

-- The label of the object once the patch of a response has been applied.
abbrev pub label_after : NamespaceProjectOrganizationMutator → Unstructured → Response → String
label_after m raw r = index_of m.organization_label (patched_labels r raw)
