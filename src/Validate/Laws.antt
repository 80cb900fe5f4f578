-- ===== src/Validate/Laws.antt =====
-- validate/labels.go: which labels pass, and what an added pair of expressions lets pass.
use appuio_cloud_agent.Base.{
  String, Bool-cases, true, ◌&&◌, ◌≡◌, refl, ◌↔◌, ◌⊎◌, inl, inr, List, [], ◌∷◌, ◌++◌, none,
  Option-cases, Dict, any, any_iff, Any, Any-map, Any-append_iff, All, All-map, arith,
}
use appuio_cloud_agent.Kube.{Error, ok, Multierr}
use appuio_cloud_agent.Validate.{
  Regexps, RegexKv, AllowedLabels, anchor, add, validate_label, validate, violations, failed,
  violations,
}

module _ (regexps : Regexps) where
  open regexps use {Regexp, compile, match_string}

  -- The pair of expressions matches the label.
  abbrev pub Covers : String → String → RegexKv regexps → Type 0
  Covers key value a = (match_string a.k key ≡ true) × (match_string a.v value ≡ true)

  -- One of the allowed pairs matches the label.
  abbrev pub Accepts : AllowedLabels regexps → String → String → Type 0
  Accepts l key value = Any (Covers key value) l.allowed

  accepted_iff :
      (l : AllowedLabels regexps) (key value : String)
      → (any (λ a. match_string a.k key && match_string a.v value) l.allowed ≡ true)
        ↔ Accepts l key value
  accepted_iff l key value =
      let (to, from) = any_iff (λ a. match_string a.k key && match_string a.v value) l.allowed in
      (
        λ h. Any-map (λ a e. ground arith) l.allowed (to h),
        λ h. from (Any-map (λ a e. ground arith) l.allowed h),
      )

  pub validate_label-Accepts_iff :
      (l : AllowedLabels regexps) (key value : String)
      → (validate_label regexps l key value ≡ none) ↔ Accepts l key value
  unfolding validate_label
  validate_label-Accepts_iff l key value =
      let (to, from) = accepted_iff l key value in
      elim (Bool-cases (any (λ a. match_string a.k key && match_string a.v value) l.allowed)) [
        | inl hit ↦ (λ h. to hit, λ h. rw hit refl)
        | inr miss ↦ (λ h. absurd (ground arith), λ h. absurd (ground (arith, from h)))
      ]

  -- When the anchored key and value can be compiled, the pair is added, and a label is accepted from
  -- then on exactly when it was accepted before or the two expressions match it.
  pub add-Accepts_iff :
      (l : AllowedLabels regexps) (key value : String) (key_r value_r : Regexp)
      → compile (anchor regexps key) ≡ ok key_r
      → compile (anchor regexps value) ≡ ok value_r
      → (l' : AllowedLabels regexps) × (add regexps l key value ≡ ok l')
        × ((k v : String)
            → (validate_label regexps l' k v ≡ none) ↔ (
                (validate_label regexps l k v ≡ none)
                ⊎ ((match_string key_r k ≡ true) × (match_string value_r v ≡ true))))
  unfolding add
  add-Accepts_iff l key value key_r value_r key_ok value_ok =
      let pair : RegexKv regexps = record { k = key_r; v = value_r } in
      let l' : AllowedLabels regexps = record { allowed = l.allowed ++ pair ∷ [] } in
      (
        l',
        rw (key_ok, value_ok) refl,
        λ k v.
            let (to', from') = validate_label-Accepts_iff l' k v in
            let (to, from) = validate_label-Accepts_iff l k v in
            let (split, unite) = Any-append_iff (Covers k v) l.allowed (pair ∷ []) in
            (
              λ h. elim (split (to' h)) [
                | inl old ↦ inl (from old)
                | inr (inl new) ↦ inr new
                | inr (inr never) ↦ absurd never
              ],
              λ h. elim h [
                | inl old ↦ from' (unite (inl (to old)))
                | inr new ↦ from' (unite (inr (inl new)))
              ],
            ),
      )

  violations-nil_iff :
      (multierr : Multierr) (l : AllowedLabels regexps) (lbls : Dict String)
      → (violations regexps multierr l lbls ≡ [])
        ↔ All (λ p. validate_label regexps l p.0 p.1 ≡ none) lbls
  violations-nil_iff multierr l [] = ground arith
  violations-nil_iff multierr l ((k, v) ∷ lbls) =
      let (to, from) = violations-nil_iff multierr l lbls in
      elim (Option-cases (validate_label regexps l k v)) [
        | inl fine ↦ rw fine (λ h. (refl, to h), λ h. from h.1)
        | inr (e, wrong) ↦ rw wrong (λ h. absurd (ground arith), λ h. absurd (ground arith))
      ]

  failed-nil_iff :
      (multierr : Multierr) (l : AllowedLabels regexps) (es : List Error)
      → (failed regexps multierr l (multierr.combine es) ≡ none) ↔ (es ≡ [])
  failed-nil_iff multierr l [] = rw (multierr.combine-nil) (λ h. refl, λ h. refl)
  failed-nil_iff multierr l (e ∷ es) = elim (Option-cases (multierr.combine (e ∷ es))) [
    | inl nil ↦ absurd (multierr.combine-cons e es nil)
    | inr (all, got) ↦ rw got (λ h. absurd (ground arith), λ h. absurd (ground arith))
  ]

  -- A map of labels is valid exactly when each of its labels is matched, key and value, by one of the
  -- allowed pairs.
  pub validate-Accepts_iff :
      (multierr : Multierr) (l : AllowedLabels regexps) (lbls : Dict String)
      → (validate regexps multierr l lbls ≡ none) ↔ All (λ p. Accepts l p.0 p.1) lbls
  unfolding validate
  validate-Accepts_iff multierr l lbls =
      let (to, from) = failed-nil_iff multierr l (violations regexps multierr l lbls) in
      let (to', from') = violations-nil_iff multierr l lbls in
      (
        λ h. All-map (λ p e. (validate_label-Accepts_iff l p.0 p.1).0 e) lbls (to' (to h)),
        λ h. from (from' (All-map (λ p e. (validate_label-Accepts_iff l p.0 p.1).1 e) lbls h)),
      )
