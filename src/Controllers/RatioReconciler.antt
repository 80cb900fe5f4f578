-- ===== src/Controllers/RatioReconciler.antt =====
-- controllers/ratio_controller.go. Parameters are as in the request ratio webhook. The events that
-- the recorder was given are a list in their order.
pub mod Laws
mod Tests
use appuio_cloud_agent.Base.{
  String, Bool, true, false, List, [], ◌∷◌, ◌++◌, Option, none, some, Dict, if◌then◌else◌,
}
use appuio_cloud_agent.Kube.{
  Decimal, Error, wrapf, lit, str, end, is_disabled, Message, Result, ok, err, Namespace,
}
use appuio_cloud_agent.Ratio.Record.{Ratio, below, warn}
use appuio_cloud_agent.Ratio.Limits.{Limit, get_limit_for_node_selector}

-- The object that an event is about, and its message. The type is always "Warning" and the reason
-- "TooMuchCPURequest".
pub data Event : Type 0 where
  on_pod : String → String → Message → Event
  on_namespace : String → Message → Event

pub record RatioReconciler (S : Type 0) (D : Type 0) : Type 0 where
  -- `Get` of a pod, by its namespace and its name, and of a namespace
  pub get_pod : String → String → Result String
  pub get_namespace : String → Result Namespace
  -- `FetchRatios`
  pub ratio : String → Result (Dict (Ratio D))
  pub ratio_limits : List (Limit S D)
  pub ratio_warn_threshold : Option D

-- The error that is returned and the events that were recorded by then.
pub record Outcome : Type 0 where
  pub error : Option Error
  pub events : List Event

abbrev pub event_if {ℓ} : {A : Type ℓ} → Result A → Event → List Event
event_if (ok _) e = e ∷ []
event_if (err _) e = []

-- More events, before those of the rest.
abbrev pub after_events : List Event → Outcome → Outcome
after_events es o = record { error = o.error; events = es ++ o.events }

module _ (dec : Decimal) (show : Option dec.D → String) {S : Type 0}
    (as_selector : S → Result (Dict String → Bool)) (convert : String → Dict String × Option Error)
    (r : RatioReconciler S dec.D) where
  open dec use {D}

  abbrev pub warn_pod : String → String → Message → List Event
  warn_pod name namespace w = event_if (r.get_pod namespace name) (on_pod namespace name w)

  abbrev pub warn_namespace : String → Message → List Event
  warn_namespace name w = event_if (r.get_namespace name) (on_namespace name w)

  -- The events for a ratio, by its limit; a failed read is only logged.
  abbrev pub events_for : String → String → String → Ratio D → Option D → List Event
  events_for namespace name k q none = []
  events_for namespace name k q (some l) =
      if below dec q l r.ratio_warn_threshold
      then warn_pod name namespace (warn dec show q (some l) k)
        ++ warn_namespace namespace (warn dec show q (some l) k)
      else []

  abbrev pub after_selector :
      String → String → String → Ratio D → Dict String × Option Error → Outcome → Outcome
  after_selector namespace name k q (sel, some e) rest = record {
    error =
        some
          (wrapf (lit "failed to convert node selector '" (str k (lit "' to labels map: " end))) e);
    events = [];
  }
  after_selector namespace name k q (sel, none) rest =
      after_events
        (events_for namespace name k q (get_limit_for_node_selector as_selector r.ratio_limits sel))
        rest

  -- The loop over the ratios.
  unfoldable pub visit : String → String → Dict (Ratio D) → Outcome
  visit namespace name [] = record { error = none; events = [] }
  visit namespace name ((k, q) ∷ qs) =
      let rest = visit namespace name qs in after_selector namespace name k q (convert k) rest

  abbrev pub on_fetched : String → String → Result (Dict (Ratio D)) → Outcome
  on_fetched namespace name (ok ratios) = visit namespace name ratios
  on_fetched namespace name (err e) =
      if is_disabled e
      then record { error = none; events = [] }
      else record { error = some e; events = [] }

  unfoldable pub reconcile : String → String → Outcome
  reconcile namespace name = on_fetched namespace name (r.ratio namespace)
