-- ===== src/Controllers/RatioReconciler/Laws.antt =====
-- controllers/ratio_controller.go: which events are recorded.
use mathlib.Core.Path.{subst, sym}
use appuio_cloud_agent.Base.{
  String, Bool, Bool-cases, true, ◌≡◌, refl, ◌↔◌, ◌⊎◌, inl, inr, List, [], ◌∷◌, ◌++◌, Option, none,
  some, Dict, All, Any, In, arith,
}
use appuio_cloud_agent.Kube.{Decimal, Error, Result, ok, err, Message, Namespace}
use appuio_cloud_agent.Ratio.Record.{Ratio, below, warn}
use appuio_cloud_agent.Ratio.Limits.{get_limit_for_node_selector}
use appuio_cloud_agent.Controllers.RatioReconciler.{
  RatioReconciler, Event, on_pod, on_namespace, Outcome, event_if, after_events, warn_pod,
  warn_namespace, events_for, after_selector, visit, reconcile,
}

-- Two events are recorded for a message: on the pod, if it can be read, and on the namespace.
abbrev pub IsAbout :
    {S D : Type 0} → RatioReconciler S D → String → String → Message → Event → Type 0
IsAbout r namespace name w e =
    ((pod : String) × (r.get_pod namespace name ≡ ok pod) × (on_pod namespace name w ≡ e))
    ⊎ ((ns : Namespace) × (r.get_namespace namespace ≡ ok ns) × (on_namespace namespace w ≡ e))

module _ (dec : Decimal) (show : Option dec.D → String) {S : Type 0}
    (as_selector : S → Result (Dict String → Bool)) (convert : String → Dict String × Option Error)
    (r : RatioReconciler S dec.D) where
  open dec use {D}

  -- The event is due for this ratio: its key has a limit, the ratio is below it, and the event is
  -- about its warning.
  abbrev pub IsDue : String → String → Event → String × Ratio D → Type 0
  IsDue namespace name e (k, q) =
      (l : D) × (get_limit_for_node_selector as_selector r.ratio_limits (convert k).0 ≡ some l)
      × (below dec q l r.ratio_warn_threshold ≡ true)
      × IsAbout r namespace name (warn dec show q (some l) k) e

  abbrev pub HasSelector : String × Ratio D → Type 0
  HasSelector (k, _) = (convert k).1 ≡ none

  In-append_iff : (e : Event) (xs ys : List Event) → In e (xs ++ ys) ↔ (In e xs ⊎ In e ys)
  In-append_iff e [] ys = (λ h. inr h, λ h. elim h [ inl n ↦ absurd n | inr m ↦ m ])
  In-append_iff e (x ∷ xs) ys =
      let (to, from) = In-append_iff e xs ys in (λ h. ground arith, λ h. ground arith)

  In-event_if_iff :
      {A : Type 0} (a : Result A) (d e : Event)
      → In e (event_if a d) ↔ ((x : A) × (a ≡ ok x) × (d ≡ e))
  In-event_if_iff (ok a) d e =
      (λ h. elim h [ inl same ↦ (a, refl, same) | inr n ↦ absurd n ], λ (x, _, same). inl same)
  In-event_if_iff (err f) d e = (λ h. absurd h, λ (x, never, _). absurd (ground arith))

  events-IsAbout_iff :
      (namespace name : String) (w : Message) (e : Event)
      → In e (
          warn_pod dec show as_selector convert r name namespace w
          ++ warn_namespace dec show as_selector convert r namespace w)
        ↔ IsAbout r namespace name w e
  events-IsAbout_iff namespace name w e =
      let (split, unite) =
        In-append_iff e (warn_pod dec show as_selector convert r name namespace w)
          (warn_namespace dec show as_selector convert r namespace w) in
      let (to, from) = In-event_if_iff (r.get_pod namespace name) (on_pod namespace name w) e in
      let (to', from') = In-event_if_iff (r.get_namespace namespace) (on_namespace namespace w) e in
      (
        λ h. elim (split h) [ inl p ↦ inl (to p) | inr n ↦ inr (to' n) ],
        λ h. elim h [ inl p ↦ unite (inl (from p)) | inr n ↦ unite (inr (from' n)) ],
      )

  events_for_iff :
      (namespace name k : String) (q : Ratio D) (limit : Option D) (e : Event)
      → In e (events_for dec show as_selector convert r namespace name k q limit) ↔ (
          (l : D) × (limit ≡ some l)
          × (below dec q l r.ratio_warn_threshold ≡ true)
          × IsAbout r namespace name (warn dec show q (some l) k) e)
  events_for_iff namespace name k q none e =
      (λ h. absurd h, λ (l, never, _, _). absurd (ground arith))
  events_for_iff namespace name k q (some l) e =
      let w = warn dec show q (some l) k in
      let (to, from) = events-IsAbout_iff namespace name w e in
      elim (Bool-cases (below dec q l r.ratio_warn_threshold)) [
        | inl low ↦ rw low (
          λ h. (l, refl, low, to h),
          λ (l', same, _, about).
              from (subst (λ o. IsAbout r namespace name (warn dec show q o k) e) (sym same) about),
        )
        | inr fine ↦ rw fine (λ h. absurd h, λ (l', same, lo, _). absurd (ground arith))
      ]

  after_selector-ok :
      (namespace name k : String) (q : Ratio D) (c : Dict String × Option Error) (o : Outcome)
      → c.1 ≡ none
      → after_selector dec show as_selector convert r namespace name k q c o
        ≡ after_events
            (events_for dec show as_selector convert r namespace name k q
              (get_limit_for_node_selector as_selector r.ratio_limits c.0))
            o
  after_selector-ok namespace name k q (sel, none) o e = refl
  after_selector-ok namespace name k q (sel, some x) o e = absurd (ground arith)

  visit-IsDue_iff :
      (namespace name : String) (qs : Dict (Ratio D))
      → All HasSelector qs
      → ((visit dec show as_selector convert r namespace name qs).error ≡ none)
        × ((e : Event)
            → In e (visit dec show as_selector convert r namespace name qs).events
              ↔ Any (IsDue namespace name e) qs)
  unfolding visit
  visit-IsDue_iff namespace name [] h = (refl, λ e. (λ n. n, λ n. n))
  visit-IsDue_iff namespace name ((k, q) ∷ qs) h =
      let (fine, listed) = visit-IsDue_iff namespace name qs h.1 in
      let rest = visit dec show as_selector convert r namespace name qs in
      let limit = get_limit_for_node_selector as_selector r.ratio_limits (convert k).0 in
      let es = events_for dec show as_selector convert r namespace name k q limit in
      rw (after_selector-ok namespace name k q (convert k) rest h.0) (
        fine,
        λ e.
            let (split, unite) = In-append_iff e es rest.events in
            let (to, from) = events_for_iff namespace name k q limit e in
            let (to', from') = listed e in
            (
              λ m. elim (split m) [ inl x ↦ inl (to x) | inr y ↦ inr (to' y) ],
              λ m. elim m [ inl x ↦ unite (inl (from x)) | inr y ↦ unite (inr (from' y)) ],
            ),
      )

  -- When the ratios of the namespace can be fetched and all their keys converted, no error is
  -- returned, and exactly these events are recorded: for each ratio below the limit for its key, one
  -- with its warning on the pod and one on the namespace, as far as these can be read.
  pub reconcile-IsDue_iff :
      (namespace name : String) (ratios : Dict (Ratio D))
      → r.ratio namespace ≡ ok ratios
      → All HasSelector ratios
      → ((reconcile dec show as_selector convert r namespace name).error ≡ none)
        × ((e : Event)
            → In e (reconcile dec show as_selector convert r namespace name).events
              ↔ Any (IsDue namespace name e) ratios)
  unfolding reconcile
  reconcile-IsDue_iff namespace name ratios fetched converted =
      rw fetched (visit-IsDue_iff namespace name ratios converted)
