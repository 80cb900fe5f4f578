-- ===== src/Webhooks/Tests.antt =====
-- Runs of the webhooks, and the theorems at concrete requests.
use appuio_cloud_agent.Base.{
  pos, String, true, false, ◌≡◌, refl, ◌↔◌, [], ◌∷◌, none, some, arith, All, Dict, atoi,
  replace_all,
}
use appuio_cloud_agent.Kube.{
  external, text, Result, err, denied, is_allowed, patches, Unstructured, list_set, first_only,
  missing, empty_object,
}
use appuio_cloud_agent.Webhooks.Samples.{request, ci, reader, always, bare, no_skip, exact}
use appuio_cloud_agent.Webhooks.Pointer.{escape_json_pointer_segment, unescape_from}
use appuio_cloud_agent.Webhooks.Pointer.Laws.{unescape_from-escape_json_pointer_segment}
use appuio_cloud_agent.Webhooks.Reserved
use appuio_cloud_agent.Webhooks.Metadata
use appuio_cloud_agent.Webhooks.Metadata.Laws.{ChangesAllowed, handle-ChangesAllowed_iff}
use appuio_cloud_agent.Webhooks.NodeSelector
use appuio_cloud_agent.Webhooks.NodeSelector.Laws.{patched_selector, handle-first}
use appuio_cloud_agent.Webhooks.NodeSelector.Merge.{lookup_in}
use appuio_cloud_agent.Webhooks.RunOnce

-- Reserved objects.
abbrev reserved : Reserved.ReservedResourceQuotaLimitRangeValidator
reserved = record {
  skipper = no_skip;
  reserved_resource_quota_names = "organization-objects" ∷ [];
  reserved_limit_range_names = "organization" ∷ [];
}

deny_reserved :
    Reserved.handle reserved (request "jane" "LimitRange" "organization")
    ≡ denied (text "reserved LimitRange object")
unfolding Reserved.handle
deny_reserved = refl

-- Deadlines of pods that run once.
abbrev job : RunOnce.Pod
job = record { restart_policy = "Never"; active_deadline_seconds = none }

abbrev run_once : RunOnce.PodRunOnceActiveDeadlineSecondsMutator
run_once = record {
  decoder = always job;
  client = reader;
  override_annotation = "deadline";
  default_active_deadline_seconds = pos 1800;
  skipper = no_skip;
}

overridden :
    patches (RunOnce.handle run_once (request "jane" "Pod" "job")) ≡ RunOnce.deadline_patch (pos 60)
unfolding RunOnce.handle atoi
overridden = refl

-- JSON pointers.
escaped : escape_json_pointer_segment "example.com/label~test" ≡ "example.com~1label~0test"
unfolding escape_json_pointer_segment replace_all
escaped = refl

unescape_example :
    unescape_from false (escape_json_pointer_segment "example.com/label~test")
    ≡ "example.com/label~test"
unescape_example = unescape_from-escape_json_pointer_segment "example.com/label~test"

-- Metadata of namespaces.
abbrev old_labels : Dict String
old_labels = ("a", "1") ∷ ("b", "2") ∷ []

abbrev new_labels : Dict String
new_labels = ("b", "3") ∷ ("c", "4") ∷ []

changed : Metadata.changed_keys list_set old_labels new_labels ≡ "c" ∷ "b" ∷ "b" ∷ "a" ∷ []
unfolding Metadata.changed_keys Metadata.insert_changed
changed = refl

abbrev labelled : Unstructured
labelled = record {
  kind = "Namespace";
  annotations = [];
  labels = new_labels;
  nested_string_map = λ _. missing;
  nested_string = λ _. missing;
}

abbrev metadata : Metadata.NamespaceMetadataValidator
metadata = record {
  decoder = always labelled;
  skipper = no_skip;
  reserved_namespaces = "default" ∷ [];
  allowed_annotations = [];
  allowed_labels = "b" ∷ "c" ∷ [];
}

handle-ChangesAllowed_iff_example :
    (is_allowed
        (Metadata.handle list_set exact first_only metadata (request "jane" "Namespace" "web"))
      ≡ true)
    ↔ (All (λ p. exact p "web" ≡ false) ("default" ∷ [])
        × ChangesAllowed list_set exact first_only [] [] []
        × ChangesAllowed list_set exact first_only [] new_labels ("b" ∷ "c" ∷ []))
handle-ChangesAllowed_iff_example =
    handle-ChangesAllowed_iff list_set exact first_only metadata (request "jane" "Namespace" "web")
      empty_object labelled refl refl refl tt tt tt (refl, (refl, tt))

-- Node selectors of pods.
abbrev node_selector : NodeSelector.PodNodeSelectorMutator
node_selector = record {
  decoder = always (bare "Pod");
  client = reader;
  default_node_selector = ("appuio.io/node-class", "flex") ∷ [];
  default_namespace_node_selector_annotation = "";
  skipper = no_skip;
}

abbrev no_selector : String → Result (Dict String)
no_selector _ = err (external "not a selector")

handle-first_example :
    (is_allowed (NodeSelector.handle no_selector node_selector (request "jane" "Pod" "web")) ≡ true)
    × (lookup_in "appuio.io/node-class" (
          patched_selector
            (NodeSelector.handle no_selector node_selector (request "jane" "Pod" "web"))
            (bare "Pod"))
        ≡ some "flex")
unfolding NodeSelector.default_labels
handle-first_example =
    handle-first no_selector node_selector (request "jane" "Pod" "web") ci (bare "Pod")
      (("appuio.io/node-class", "flex") ∷ []) "appuio.io/node-class" refl refl refl refl refl refl
      (refl, tt) (λ e h. ground arith)
