-- ===== src/Controllers/RatioReconciler/Tests.antt =====
-- The events of a namespace with a ratio below its limit, and the theorem there.
use appuio_cloud_agent.Base.{
  ℤ, pos, String, Bool, ◌≡◌, ◌↔◌, refl, [], ◌∷◌, Option, none, some, Dict, ◌==◌, Any, In,
}
use appuio_cloud_agent.Kube.{integers, Error, Result, ok, err, not_found}
use appuio_cloud_agent.Webhooks.Samples.{ci}
use appuio_cloud_agent.Ratio.Record.{Ratio}
use appuio_cloud_agent.Controllers.RatioReconciler.{RatioReconciler, Event, reconcile}
use appuio_cloud_agent.Controllers.RatioReconciler.Laws.{IsDue, reconcile-IsDue_iff}

abbrev used : Ratio ℤ
used = record { cpu = pos 2; memory = pos 2097152 }

-- The pod cannot be read.
abbrev reconciler : RatioReconciler String ℤ
reconciler = record {
  get_pod = λ _ name. err (not_found name);
  get_namespace = λ _. ok ci;
  ratio = λ _. ok (("plus", used) ∷ []);
  ratio_limits = record { node_selector = "plus"; limit = some (pos 4194304) } ∷ [];
  ratio_warn_threshold = none;
}

abbrev show_ratio : Option ℤ → String
show_ratio _ = "ratio"

abbrev value_of : Dict String → String
value_of [] = ""
value_of ((_, v) ∷ _) = v

abbrev as_selector : String → Result (Dict String → Bool)
as_selector s = ok (λ labels. value_of labels == s)

abbrev convert : String → Dict String × Option Error
convert s = (("class", s) ∷ [], none)

reconcile-IsDue_iff_example :
    ((reconcile integers show_ratio as_selector convert reconciler "ci" "web").error ≡ none)
    × ((e : Event)
        → In e (reconcile integers show_ratio as_selector convert reconciler "ci" "web").events
          ↔ Any
              (IsDue integers show_ratio as_selector convert reconciler "ci" "web" e)
              (("plus", used) ∷ []))
reconcile-IsDue_iff_example =
    reconcile-IsDue_iff integers show_ratio as_selector convert reconciler "ci" "web"
      (("plus", used) ∷ []) refl (refl, tt)
