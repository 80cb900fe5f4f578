-- ===== src/Webhooks/RequestRatio/Laws.antt =====
-- webhooks/ratio_validator.go: no request is refused, and which ratios are warned of.
use appuio_cloud_agent.Base.{
  ℕ, String, Bool, Bool-cases, In, Any, ◌↔◌, ◌⊎◌, true, false, ◌≡◌, refl, ap, ◌∙◌, inl, inr, List,
  [], ◌∷◌, Option, none, some, Dict, All, starts_with, arith,
}
use appuio_cloud_agent.Kube.{
  Decimal, Error, Message, Result, ok, err, Result-cases, Request, is_disabled, is_not_found,
}
use appuio_cloud_agent.Ratio.Record.{Ratio, below, warn}
use appuio_cloud_agent.Ratio.Limits.{get_limit_for_node_selector}
use appuio_cloud_agent.Webhooks.RequestRatio.{
  Response, RatioValidator, errored, warned, handle, otherwise, fetch_failed, get_node_selector,
  effective_node_selector, current_ratios, collect_warnings, after_selector, warning_for,
  with_warning,
}

-- A call on every outcome of which the response admits.
otherwise-allowed {ℓ} :
    {A : Type ℓ} (a : Result A) (fail : Error → Response) (rest : A → Response)
    → ((e : Error) → (fail e).allowed ≡ true)
    → ((x : A) → (rest x).allowed ≡ true)
    → (otherwise a fail rest).allowed ≡ true
otherwise-allowed (ok a) fail rest f g = g a
otherwise-allowed (err e) fail rest f g = f e

errored-allowed : (code : ℕ) (e : Error) → (errored code e).allowed ≡ true
unfolding errored
errored-allowed code e = refl

fetch_failed-allowed : (e : Error) → (fetch_failed e).allowed ≡ true
fetch_failed-allowed e = elim (Bool-cases (is_disabled e)) [
  | inl off ↦ rw off refl
  | inr on ↦ elim (Bool-cases (is_not_found e)) [
    | inl gone ↦ rw (on, gone) (errored-allowed 404 e)
    | inr other ↦ rw (on, other) (errored-allowed 500 e)
  ]
]

module _ (dec : Decimal) (show : Option dec.D → String) (show_set : Dict String → String)
    {S : Type 0} (as_selector : S → Result (Dict String → Bool))
    (convert : String → Dict String × Option Error) (parse : String → Dict String → Bool)
    (v : RatioValidator S dec.D) where
  open dec use {D}

  respond-allowed :
      (req : Request) (own : Dict String) (ratios : Dict (Ratio D))
      → (otherwise
          (current_ratios dec show show_set as_selector convert parse v req
            (effective_node_selector dec show show_set as_selector convert parse v req own)
            ratios)
          (errored 400)
          λ now.
            otherwise
              (collect_warnings dec show show_set as_selector convert parse v now)
              (errored 500)
              warned).allowed
        ≡ true
  respond-allowed req own ratios = otherwise-allowed _ (errored 400) _ (errored-allowed 400) λ now.
      otherwise-allowed (collect_warnings dec show show_set as_selector convert parse v now)
        (errored 500) warned (errored-allowed 500) (λ ws. refl)

  -- No request is refused, whatever it is and whichever call fails on the way.
  pub handle-allowed :
      (req : Request) → (handle dec show show_set as_selector convert parse v req).allowed ≡ true
  unfolding handle
  handle-allowed req = elim (Bool-cases (starts_with req.user_info.username "system:")) [
    | inl system ↦ rw system refl
    | inr user ↦ elim (Result-cases (v.ratio req.namespace)) [
      | inr (e, failed) ↦ rw (user, failed) (fetch_failed-allowed e)
      | inl (ratios, fetched) ↦
          elim (Result-cases
            (get_node_selector dec show show_set as_selector convert parse v req)) [
              | inr (e, failed) ↦ rw (user, fetched, failed) (errored-allowed 400 e)
              | inl (own, read) ↦ rw (user, fetched, read) (respond-allowed req own ratios)
            ]
    ]
  ]

  -- The warning is for this ratio: its key has a limit, and the ratio is below it.
  abbrev pub Warns : Message → String × Ratio D → Type 0
  Warns w (k, r) =
      (l : D) × (get_limit_for_node_selector as_selector v.ratio_limits (convert k).0 ≡ some l)
      × (below dec r l v.ratio_warn_threshold ≡ true)
      × (warn dec show r (some l) k ≡ w)

  abbrev pub IsConverted : String × Ratio D → Type 0
  IsConverted (k, _) = (convert k).1 ≡ none

  -- What the loop collects, when every key is converted.
  warning_for_iff :
      (w : Message) (k : String) (r : Ratio D) (limit : Option D) (ws : List Message)
      → In w (
          with_warning dec show show_set as_selector convert parse v
            (warning_for dec show show_set as_selector convert parse v k r limit)
            ws)
        ↔ (((l : D) × (limit ≡ some l)
              × (below dec r l v.ratio_warn_threshold ≡ true)
              × (warn dec show r (some l) k ≡ w))
            ⊎ In w ws)
  warning_for_iff w k r none ws =
      (λ h. inr h, λ h. elim h [ inl (l, never, _, _) ↦ absurd (ground arith) | inr h ↦ h ])
  warning_for_iff w k r (some l) ws = elim (Bool-cases (below dec r l v.ratio_warn_threshold)) [
    | inl low ↦ rw low (
      λ h. elim h [ inl e ↦ inl (l, refl, low, e) | inr m ↦ inr m ],
      λ h. elim h [
        | inl (l', same, _, e) ↦ inl (ap (λ o. warn dec show r o k) same ∙ e)
        | inr m ↦ inr m
      ],
    )
    | inr fine ↦
        rw fine
          (λ h. inr h, λ h. elim h [ inl (l', same, lo, _) ↦ absurd (ground arith) | inr m ↦ m ])
  ]

  after_converted :
      (k : String) (r : Ratio D) (c : Dict String × Option Error) (ws : List Message)
      {rest : Result (List Message)}
      → c.1 ≡ none
      → rest ≡ ok ws
      → after_selector dec show show_set as_selector convert parse v k r c rest
        ≡ ok (
            with_warning dec show show_set as_selector convert parse v
              (warning_for dec show show_set as_selector convert parse v k r
                (get_limit_for_node_selector as_selector v.ratio_limits c.0))
              ws)
  after_converted k r (sel, none) ws e got = rw got refl
  after_converted k r (sel, some x) ws e got = absurd (ground arith)

  -- The loop succeeds when every key is converted, and collects the warnings of the ratios that warn.
  collect_warnings_iff :
      (rs : Dict (Ratio D))
      → All IsConverted rs
      → (ws : List Message) × (collect_warnings dec show show_set as_selector convert parse v rs
          ≡ ok ws)
        × ((w : Message) → In w ws ↔ Any (Warns w) rs)
  unfolding collect_warnings
  collect_warnings_iff [] h = ([], refl, λ w. (λ e. e, λ e. e))
  collect_warnings_iff ((k, r) ∷ rs) h =
      let (ws, got, listed) = collect_warnings_iff rs h.1 in
      let limit = get_limit_for_node_selector as_selector v.ratio_limits (convert k).0 in
      (
        with_warning dec show show_set as_selector convert parse v
            (warning_for dec show show_set as_selector convert parse v k r limit) ws,
        after_converted k r (convert k) ws h.0 got,
        λ w.
            let (to, from) = warning_for_iff w k r limit ws in
            let (to', from') = listed w in
            (
              λ e. elim (to e) [ inl x ↦ inl x | inr y ↦ inr (to' y) ],
              λ e. elim e [ inl x ↦ from (inl x) | inr y ↦ from (inr (from' y)) ],
            ),
      )

  -- For a request of a user other than a system user, for which the ratios can be fetched, the node
  -- selector read and the object recorded, and when all keys of the ratios can be converted, the
  -- response carries exactly the warnings for the ratios that are below the limit for their key.
  pub handle-Warns_iff :
      (req : Request) (own : Dict String) (ratios now : Dict (Ratio D))
      → starts_with req.user_info.username "system:" ≡ false
      → v.ratio req.namespace ≡ ok ratios
      → get_node_selector dec show show_set as_selector convert parse v req ≡ ok own
      → current_ratios dec show show_set as_selector convert parse v req
          (effective_node_selector dec show show_set as_selector convert parse v req own)
          ratios
        ≡ ok now
      → All IsConverted now
      → (ws : List Message) × (handle dec show show_set as_selector convert parse v req ≡ warned ws)
        × ((w : Message) → In w ws ↔ Any (Warns w) now)
  unfolding handle
  handle-Warns_iff req own ratios now user fetched read recorded converted =
      let (ws, got, listed) = collect_warnings_iff now converted in
      (ws, rw (user, fetched, read, recorded, got) refl, listed)
