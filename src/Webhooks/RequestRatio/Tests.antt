-- ===== src/Webhooks/RequestRatio/Tests.antt =====
-- Runs of the request ratio webhook, and the theorems at concrete requests.
use appuio_cloud_agent.Base.{
  ℤ, pos, String, Bool, ◌≡◌, refl, ◌↔◌, List, [], ◌∷◌, Option, none, some, Dict, ◌==◌, In, Any,
}
use appuio_cloud_agent.Kube.{integers, Message, Error, Result, ok, Request}
use appuio_cloud_agent.Webhooks.Samples.{reader, always, request}
use appuio_cloud_agent.Ratio.Record.{PodSpec, Pod, Workload, Ratio}
use appuio_cloud_agent.Webhooks.RequestRatio.{
  RatioValidator, handle, current_ratios, get_node_selector, warned,
}
use appuio_cloud_agent.Webhooks.RequestRatio.Laws.{Warns, handle-Warns_iff}

abbrev spec : PodSpec ℤ
spec = record {
  containers = record { cpu = pos 1; memory = pos 1048576 } ∷ [];
  node_selector = ("class", "plus") ∷ [];
}

abbrev running : Pod ℤ
running = record { phase = "Running"; spec = spec }

abbrev workload : Workload ℤ
workload = record { replicas = none; template = spec }

-- 2 cores and 2 MiB on the nodes of class plus, where a core comes with 4 MiB.
abbrev used : Ratio ℤ
used = record { cpu = pos 2; memory = pos 2097152 }

abbrev validator : RatioValidator String ℤ
validator = record {
  pod_decoder = always running;
  deployment_decoder = always workload;
  stateful_set_decoder = always workload;
  client = reader;
  ratio = λ _. ok (("plus", used) ∷ []);
  ratio_limits = record { node_selector = "plus"; limit = some (pos 4194304) } ∷ [];
  ratio_warn_threshold = none;
  default_node_selector = [];
  default_namespace_node_selector_annotation = "node-selector";
}

abbrev show_ratio : Option ℤ → String
show_ratio _ = "ratio"

abbrev show_set : Dict String → String
show_set [] = ""
show_set ((_, v) ∷ _) = v

abbrev as_selector : String → Result (Dict String → Bool)
as_selector s = ok (λ labels. show_set labels == s)

abbrev convert : String → Dict String × Option Error
convert s = (("class", s) ∷ [], none)

abbrev parse : String → Dict String → Bool
parse s labels = show_set labels == s

abbrev update : Request
update = record (request "jane" "Pod" "web") { operation = "UPDATE" }

reads_selector :
    get_node_selector integers show_ratio show_set as_selector convert parse validator update
    ≡ ok (("class", "plus") ∷ [])
unfolding get_node_selector
reads_selector = refl

keeps_ratios :
    (sel : Dict String)
    → current_ratios integers show_ratio show_set as_selector convert parse validator update sel
        (("plus", used) ∷ [])
      ≡ ok (("plus", used) ∷ [])
unfolding current_ratios
keeps_ratios sel = refl

handle-Warns_iff_example :
    (ws : List Message) × (handle integers show_ratio show_set as_selector convert parse validator
        update
      ≡ warned ws)
    × ((w : Message)
        → In w ws
          ↔ Any
              (Warns integers show_ratio show_set as_selector convert parse validator w)
              (("plus", used) ∷ []))
handle-Warns_iff_example =
    handle-Warns_iff integers show_ratio show_set as_selector convert parse validator update
      (("class", "plus") ∷ []) (("plus", used) ∷ []) (("plus", used) ∷ []) refl refl reads_selector
      (keeps_ratios _) (refl, tt)
