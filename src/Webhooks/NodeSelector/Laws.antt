-- ===== src/Webhooks/NodeSelector/Laws.antt =====
-- The node selector of a pod once the patch has been applied.
use appuio_cloud_agent.Base.{
  String, true, ◌≡◌, refl, ◌≢◌, arith, [], ◌∷◌, Option, none, some, Dict, lookup, IsMap, ◌==◌,
  eq_iff, sym, split,
}
use appuio_cloud_agent.Kube.{
  Error, Result, ok, Request, Response, is_allowed, patches, Unstructured, Found, found, missing,
  mistyped, Namespace,
}
use appuio_cloud_agent.Webhooks.Guard.{IsChecked}
use appuio_cloud_agent.Webhooks.Pointer.{apply_patch, apply_add, tokens, unescape_from}
use appuio_cloud_agent.Webhooks.NodeSelector.{
  PodNodeSelectorMutator, selector_patches, apply_defaults, default_labels, handle,
}
use appuio_cloud_agent.Webhooks.NodeSelector.Merge.{prefix, first, lookup_in, missing_labels-first}

abbrev pub map_of : Found (Dict String) → Option (Dict String)
map_of (found m) = some m
map_of _ = none

-- The node selector of the pod, or none where it has none.
abbrev pub selector_field : Unstructured → Option (Dict String)
selector_field raw = map_of (raw.nested_string_map prefix)

-- The node selector after the patch of a response.
unfoldable pub patched_selector : Response → Unstructured → Option (Dict String)
patched_selector r raw = apply_patch prefix (patches r) (selector_field raw)

selector_patches-first :
    (f : Found (Dict String)) (d : Dict String) (k : String)
    → IsMap d
    → is_allowed (selector_patches f d) ≡ true
    → lookup_in k (apply_patch prefix (patches (selector_patches f d)) (map_of f))
      ≡ first (lookup_in k (map_of f)) (lookup k d)
unfolding apply_patch apply_add tokens unescape_from split
selector_patches-first (found sel) d k h a = missing_labels-first sel d k h
selector_patches-first missing d k h a = refl
selector_patches-first (mistyped e) d k h a = cc

first-none : (o : Option String) → first o none ≡ o
first-none none = refl
first-none (some _) = refl

apply_defaults-first :
    (raw : Unstructured) (d : Dict String) (k : String)
    → IsMap d
    → is_allowed (apply_defaults raw d) ≡ true
    → lookup_in k (patched_selector (apply_defaults raw d) raw)
      ≡ first (lookup_in k (selector_field raw)) (lookup k d)
unfolding patched_selector apply_patch
apply_defaults-first raw [] k h a = sym (first-none (lookup_in k (selector_field raw)))
apply_defaults-first raw (p ∷ d) k h a =
    selector_patches-first (raw.nested_string_map prefix) (p ∷ d) k h a

selector_patches-allowed :
    (f : Found (Dict String)) (d : Dict String)
    → ((e : Error) → f ≢ mistyped e)
    → is_allowed (selector_patches f d) ≡ true
selector_patches-allowed (found sel) d h = refl
selector_patches-allowed missing d h = refl
selector_patches-allowed (mistyped e) d h = absurd (h e refl)

apply_defaults-allowed :
    (raw : Unstructured) (d : Dict String)
    → ((e : Error) → raw.nested_string_map prefix ≢ mistyped e)
    → is_allowed (apply_defaults raw d) ≡ true
apply_defaults-allowed raw [] h = refl
apply_defaults-allowed raw (p ∷ d) h =
    selector_patches-allowed (raw.nested_string_map prefix) (p ∷ d) h

-- When the request is for a pod, the skipper lets it be checked, the namespace can be read, the
-- pod decoded and the default labels determined, and the pod's node selector is a map of strings or
-- missing, then the request is admitted, and the node selector of the pod, once the patch is
-- applied, has at each key the value that it had, or else that of the default labels: nothing is
-- overwritten, and no default is missing.
pub handle-first :
    (convert : String → Result (Dict String)) (v : PodNodeSelectorMutator) (req : Request)
    (ns : Namespace) (raw : Unstructured) (d : Dict String) (k : String)
    → req.group ≡ ""
    → req.kind ≡ "Pod"
    → IsChecked (v.skipper req)
    → v.client.get_namespace req.namespace ≡ ok ns
    → v.decoder.decode req ≡ ok raw
    → default_labels convert v ns ≡ ok d
    → IsMap d
    → ((e : Error) → raw.nested_string_map prefix ≢ mistyped e)
    → (is_allowed (handle convert v req) ≡ true)
      × (lookup_in k (patched_selector (handle convert v req) raw)
          ≡ first (lookup_in k (selector_field raw)) (lookup k d))
unfolding handle
handle-first convert v req ns raw d k core pod checked got decoded defaults h typed =
    let g : (req.group == "") ≡ true = (eq_iff _ _).1 core in
    let p : (req.kind == "Pod") ≡ true = (eq_iff _ _).1 pod in
    let e : handle convert v req ≡ apply_defaults raw d = ground arith in
    let a = apply_defaults-allowed raw d typed in rw e (a, apply_defaults-first raw d k h a)
