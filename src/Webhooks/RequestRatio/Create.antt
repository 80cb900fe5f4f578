-- ===== src/Webhooks/RequestRatio/Create.antt =====
-- webhooks/ratio_validator.go: how a pod that is created counts.
use appuio_cloud_agent.Base.{
  String, Bool, ◌≡◌, refl, ap, ◌∙◌, [], ◌∷◌, Option, some, Dict, lookup, insert, lookup-insert,
  ◌==◌, if◌then◌else◌,
}
use appuio_cloud_agent.Kube.{Decimal, Error, Result, ok, Request}
use appuio_cloud_agent.Ratio.Record.{Pod, Ratio, record_pod}
use appuio_cloud_agent.Ratio.Sums.{plus, running_total, record_pod-eq}
use appuio_cloud_agent.Webhooks.RequestRatio.{
  RatioValidator, current_ratios, record_object, fuzzy_match_ratio_key,
}

module _ (dec : Decimal) (show : Option dec.D → String) (show_set : Dict String → String)
    {S : Type 0} (as_selector : S → Result (Dict String → Bool))
    (convert : String → Dict String × Option Error) (parse : String → Dict String → Bool)
    (v : RatioValidator S dec.D) where
  open dec use {D}

  exact-key :
      (key : String) (ratios : Dict (Ratio D)) (r : Ratio D)
      → lookup key ratios ≡ some r
      → fuzzy_match_ratio_key dec show show_set as_selector convert parse key ratios ≡ key
  unfolding fuzzy_match_ratio_key
  exact-key key ratios r present = rw present refl

  -- When a pod is created and there is a ratio for its node selector, that ratio gains the pod's
  -- requests if the pod's phase is `Running`, and nothing otherwise; no other ratio changes.
  pub current_ratios-pod :
      (req : Request) (pod : Pod D) (sel : Dict String) (ratios : Dict (Ratio D)) (r : Ratio D)
      → req.operation ≡ "CREATE"
      → req.kind ≡ "Pod"
      → v.pod_decoder.decode req ≡ ok pod
      → lookup (show_set sel) ratios ≡ some r
      → (now : Dict (Ratio D)) × (current_ratios dec show show_set as_selector convert parse v req
            sel ratios
          ≡ ok now)
        × ((j : String)
            → lookup j now ≡ (
                if show_set sel == j
                then some (plus dec r (running_total dec (pod ∷ [])))
                else lookup j ratios))
  unfolding current_ratios record_object
  current_ratios-pod req pod sel ratios r create kind decoded present =
      let key = show_set sel in
      let r' = record_pod dec (pod ∷ []) r in
      (
        insert key r' ratios,
        rw (decoded, exact-key (show_set sel) ratios r present, present, create, kind) refl,
        λ j.
            lookup-insert key j r' ratios
            ∙ ap (λ x. if key == j then some x else lookup j ratios)
                (record_pod-eq dec (pod ∷ []) r),
      )
