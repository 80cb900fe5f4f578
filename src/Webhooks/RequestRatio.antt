-- ===== src/Webhooks/RequestRatio.antt =====
-- webhooks/ratio_validator.go. Parameters: the decimals and their printing, `labels.Set.String`,
-- `LabelSelectorAsSelector`, `ConvertSelectorToLabelsMap`, whose two results are both used, and
-- `Matches` of what `labels.Parse` returns.
pub mod Laws
pub mod Create
mod Tests
use appuio_cloud_agent.Base.{
  ℕ, String, Bool, true, false, not, List, [], ◌∷◌, Option, none, some, Dict, lookup, insert, index,
  ◌==◌, if◌then◌else◌, is_some, starts_with,
}
use appuio_cloud_agent.Kube.{
  Decimal, Error, Message, text, is_not_found, is_disabled, Result, ok, err, ◌>>=◌, Request,
  Decoder, Reader,
}
use appuio_cloud_agent.Ratio.Record.{
  PodSpec, Pod, Workload, Ratio, new_ratio, record_pod, record_deployment, record_stateful_set,
  below, warn,
}
use appuio_cloud_agent.Ratio.Limits.{Limit, get_limit_for_node_selector}

-- The fields of the response that the handler sets. The status code is 200 in `admission.Allowed`, and
-- left out, as 0, with the warnings.
pub record Response : Type 0 where
  pub allowed : Bool
  pub code : ℕ
  pub reason : Option Error
  pub message : Message
  pub warnings : List Message

abbrev pub admitted : Message → Response
admitted m = record { allowed = true; code = 200; reason = none; message = m; warnings = [] }

unfoldable pub errored : ℕ → Error → Response
errored code e = record {
  allowed = true;
  code = code;
  reason = some e;
  message = text "";
  warnings = [];
}

abbrev pub warned : List Message → Response
warned ws = record { allowed = true; code = 0; reason = none; message = text ""; warnings = ws }

-- A call, and what is answered if it fails.
abbrev pub otherwise {ℓ} : {A : Type ℓ} → Result A → (Error → Response) → (A → Response) → Response
otherwise (ok a) fail rest = rest a
otherwise (err e) fail rest = fail e

abbrev pub fetch_failed : Error → Response
fetch_failed e =
    if is_disabled e
    then admitted (text "validation disabled")
    else (if is_not_found e then errored 404 e else errored 500 e)

pub record RatioValidator (S : Type 0) (D : Type 0) : Type 0 where
  pub pod_decoder : Decoder (Pod D)
  pub deployment_decoder : Decoder (Workload D)
  pub stateful_set_decoder : Decoder (Workload D)
  pub client : Reader
  -- `FetchRatios`
  pub ratio : String → Result (Dict (Ratio D))
  pub ratio_limits : List (Limit S D)
  pub ratio_warn_threshold : Option D
  pub default_node_selector : Dict String
  pub default_namespace_node_selector_annotation : String

abbrev pub is_empty : Dict String → Bool
is_empty [] = true
is_empty (_ ∷ _) = false

abbrev pub or_default : Dict String → Dict String → Dict String
or_default [] d = d
or_default (x ∷ xs) d = x ∷ xs

module _ {D : Type 0} where
  abbrev pub key_of_subset :
      (Dict String → Bool)
      → (String → Dict String × Option Error)
      → List (String × Ratio D)
      → String
      → String
  key_of_subset matches convert [] s = s
  key_of_subset matches convert ((k, _) ∷ rs) s =
      if matches (convert k).0 then k else key_of_subset matches convert rs s

module _ (dec : Decimal) (show : Option dec.D → String) (show_set : Dict String → String)
    {S : Type 0} (as_selector : S → Result (Dict String → Bool))
    (convert : String → Dict String × Option Error) (parse : String → Dict String → Bool) where
  open dec use {D}

  unfoldable pub fuzzy_match_ratio_key : String → Dict (Ratio D) → String
  fuzzy_match_ratio_key s ratios =
      if is_some (lookup s ratios) then s else key_of_subset (parse s) convert ratios s

  module _ (v : RatioValidator S D) where
    unfoldable pub get_node_selector : Request → Result (Dict String)
    get_node_selector req =
        if req.kind == "Pod"
        then (v.pod_decoder.decode req >>= λ pod. ok pod.spec.node_selector)
        else (if req.kind == "Deployment"
            then (v.deployment_decoder.decode req >>= λ d. ok d.template.node_selector)
            else (if req.kind == "StatefulSet"
                then (v.stateful_set_decoder.decode req >>= λ s. ok s.template.node_selector)
                else ok []))

    unfoldable pub record_object : Ratio D → Request → Result (Ratio D)
    record_object r req =
        if req.kind == "Pod"
        then (v.pod_decoder.decode req >>= λ pod. ok (record_pod dec (pod ∷ []) r))
        else (if req.kind == "Deployment"
            then (v.deployment_decoder.decode req >>= λ d. ok (record_deployment dec (d ∷ []) r))
            else (if req.kind == "StatefulSet"
                then (v.stateful_set_decoder.decode req >>= λ s.
                    ok (record_stateful_set dec (s ∷ []) r))
                else ok r))

    -- The selector, and the error that the caller only logs.
    unfoldable pub get_default_node_selector_from_namespace : String → Dict String × Option Error
    get_default_node_selector_from_namespace name = elim (v.client.get_namespace name) [
      | err e ↦ ([], some e)
      | ok ns ↦ convert (index v.default_namespace_node_selector_annotation ns.annotations)
    ]

    -- `nodeSel` once the defaults are applied.
    unfoldable pub effective_node_selector : Request → Dict String → Dict String
    effective_node_selector req own =
        or_default (or_default own (get_default_node_selector_from_namespace req.namespace).0)
          v.default_node_selector

    abbrev pub or_new_ratio : Option (Ratio D) → Ratio D
    or_new_ratio none = new_ratio dec
    or_new_ratio (some r) = r

    -- The ratios with the new object, if one is created.
    unfoldable pub current_ratios : Request → Dict String → Dict (Ratio D) → Result (Dict (Ratio D))
    current_ratios req node_selector ratios =
        if req.operation == "CREATE"
        then (let key = fuzzy_match_ratio_key (show_set node_selector) ratios in
            record_object (or_new_ratio (lookup key ratios)) req >>= λ r. ok (insert key r ratios))
        else ok ratios

    -- The warning for a ratio, by its limit.
    abbrev pub warning_for : String → Ratio D → Option D → Option Message
    warning_for k r none = none
    warning_for k r (some l) =
        if below dec r l v.ratio_warn_threshold then some (warn dec show r (some l) k) else none

    abbrev pub with_warning : Option Message → List Message → List Message
    with_warning none ws = ws
    with_warning (some w) ws = w ∷ ws

    abbrev pub after_selector :
        String
        → Ratio D
        → Dict String × Option Error
        → Result (List Message)
        → Result (List Message)
    after_selector k r (sel, some e) rest = err e
    after_selector k r (sel, none) rest = rest >>= λ ws. ok (
        with_warning (warning_for k r (get_limit_for_node_selector as_selector v.ratio_limits sel))
          ws)

    -- The loop over the ratios.
    unfoldable pub collect_warnings : Dict (Ratio D) → Result (List Message)
    collect_warnings [] = ok []
    collect_warnings ((k, r) ∷ rs) =
        let rest = collect_warnings rs in after_selector k r (convert k) rest

    unfoldable pub handle : Request → Response
    handle req =
        if starts_with req.user_info.username "system:"
        then admitted (text "system user")
        else otherwise (v.ratio req.namespace) fetch_failed λ ratios.
          otherwise (get_node_selector req) (errored 400) λ own.
            otherwise (current_ratios req (effective_node_selector req own) ratios) (errored 400)
              λ now. otherwise (collect_warnings now) (errored 500) warned
