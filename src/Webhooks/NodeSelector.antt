-- ===== src/Webhooks/NodeSelector.antt =====
-- webhooks/pod_node_selector_mutator.go. `labels.ConvertSelectorToLabelsMap` is a library function:
-- the section parameter.
pub mod Merge
pub mod Laws
use Prim.Native.String.{◌++◌ as str_append}
use appuio_cloud_agent.Base.{
  String, Bool, true, false, not, ◌||◌, List, [], ◌∷◌, Option, none, some, Dict, lookup, index,
  ◌==◌, if◌then◌else◌,
}
use appuio_cloud_agent.Kube.{
  Error, errorf, wrapf, text, lit, str, end, Result, ok, err, Request, Response, allowed, errored,
  patched, Operation, string, string_map, Decoder, Unstructured, Found, found, missing, mistyped,
  Namespace, Reader,
}
use appuio_cloud_agent.Skipper.Skip.{Skipper}
use appuio_cloud_agent.Webhooks.Guard.{unless_skipped, attempt}
use appuio_cloud_agent.Webhooks.Pointer.{escape_json_pointer_segment}

pub record PodNodeSelectorMutator : Type 0 where
  pub decoder : Decoder Unstructured
  pub client : Reader
  pub default_node_selector : Dict String
  pub default_namespace_node_selector_annotation : String
  pub skipper : Skipper

abbrev pub add_label : String → String → Operation
add_label k v = record {
  operation = "add";
  path = str_append "/spec/nodeSelector/" (escape_json_pointer_segment k);
  value = string v;
}

-- The operation is added where the label does not exist.
abbrev pub unless_exists : Option String → Operation → List Operation → List Operation
unless_exists none op ops = op ∷ ops
unless_exists (some _) op ops = ops

-- The loop over the defaults: an operation for each label that the node selector lacks.
unfoldable pub missing_labels : Dict String → Dict String → List Operation
missing_labels node_sel [] = []
missing_labels node_sel ((k, v) ∷ defaults) =
    unless_exists (lookup k node_sel) (add_label k v) (missing_labels node_sel defaults)

abbrev pub selector_patches : Found (Dict String) → Dict String → Response
selector_patches (found node_sel) defaults =
    patched (text "added default node selector") (missing_labels node_sel defaults)
selector_patches missing defaults =
    patched (text "added default node selector")
      (record { operation = "add"; path = "/spec/nodeSelector"; value = string_map defaults } ∷ [])
selector_patches (mistyped e) defaults = errored 500 e

-- The end of the handler, once the defaults are known.
abbrev pub apply_defaults : Unstructured → Dict String → Response
apply_defaults raw [] = allowed (text "no default labels")
apply_defaults raw (d ∷ defaults) =
    selector_patches (raw.nested_string_map ("spec" ∷ "nodeSelector" ∷ [])) (d ∷ defaults)

module _ (convert : String → Result (Dict String)) where
  abbrev pub converted : String → Result (Dict String) → Result (Dict String)
  converted annotation (ok d) = ok d
  converted annotation (err e) =
      err
        (wrapf (lit "failed to parse default node selector fom " (str annotation (lit ": " end))) e)

  unfoldable pub default_labels : PodNodeSelectorMutator → Namespace → Result (Dict String)
  default_labels v ns =
      let annotation = v.default_namespace_node_selector_annotation in
      let raw_defaults = index annotation ns.annotations in
      if annotation == "" || raw_defaults == ""
      then ok v.default_node_selector
      else converted annotation (convert raw_defaults)

  unfoldable pub handle : PodNodeSelectorMutator → Request → Response
  handle v req =
      if not (req.group == "") || not (req.kind == "Pod")
      then errored 400 (errorf (lit "expected a Pod, got a " (str req.kind end)))
      else unless_skipped (λ e. e) (v.skipper req)
          (attempt (v.client.get_namespace req.namespace) (errored 500) λ ns.
            attempt (v.decoder.decode req) (errored 400)
              λ raw. attempt (default_labels v ns) (errored 500) (apply_defaults raw))
