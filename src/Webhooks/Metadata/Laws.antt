-- ===== src/Webhooks/Metadata/Laws.antt =====
-- Which changes of a namespace's metadata pass.
use appuio_cloud_agent.Base.{
  String, Bool, true, false, ◌≡◌, refl, ◌≢◌, ◌↔◌, inl, inr, List, [], ◌∷◌, none, arith, Dict,
  lookup, IsMap, In, All, Any, any, any_iff, any-false_iff, Bool-cases,
}
use appuio_cloud_agent.Kube.{Error, ok, Request, Unstructured, StringSet, Multierr, is_allowed}
use appuio_cloud_agent.Webhooks.Guard.{IsChecked}
use appuio_cloud_agent.Webhooks.Metadata.{
  NamespaceMetadataValidator, changed_keys, violations, validate_changed_map, decode_old,
  compare_objects, handle,
}
use appuio_cloud_agent.Webhooks.Metadata.Changed.{changed_keys_iff}

module _ (sets : StringSet) (match : String → String → Bool) (multierr : Multierr) where
  open multierr use {combine, combine-nil, combine-cons}

  -- Every key at which the maps differ matches one of the allowed patterns.
  abbrev pub ChangesAllowed : Dict String → Dict String → List String → Type 0
  ChangesAllowed old new allowed_keys =
      (k : String) → lookup k old ≢ lookup k new → Any (λ a. match a k ≡ true) allowed_keys

  combine-none_iff : (es : List Error) → (combine es ≡ none) ↔ (es ≡ [])
  combine-none_iff [] = (λ h. refl, λ h. combine-nil)
  combine-none_iff (e ∷ es) = (λ h. absurd (combine-cons e es h), λ h. ground arith)

  violations-nil_iff :
      (allowed_keys : List String) (ref : String) (ks : List String)
      → (violations sets match multierr allowed_keys ref ks ≡ [])
        ↔ ((k : String) → In k ks → Any (λ a. match a k ≡ true) allowed_keys)
  violations-nil_iff allowed_keys ref [] = (λ h k e. absurd e, λ h. refl)
  violations-nil_iff allowed_keys ref (j ∷ ks) =
      let (to, from) = violations-nil_iff allowed_keys ref ks in
      let (here, back) = any_iff (λ a. match a j) allowed_keys in
      elim (Bool-cases (any (λ a. match a j) allowed_keys)) [
        | inl fine ↦ rw fine (
          λ h k e. elim e [ inl same ↦ rw same at (here fine) | inr later ↦ to h k later ],
          λ h. from (λ k e. h k (inr e)),
        )
        | inr bad ↦ rw bad (
          λ h. absurd (ground arith),
          λ h. absurd (
              let hit : any (λ a. match a j) allowed_keys ≡ true = back (h j (inl refl)) in
              ground arith),
        )
      ]

  validate_changed_map_iff :
      (old new : Dict String) (allowed_keys : List String) (ref : String)
      → IsMap old
      → IsMap new
      → (validate_changed_map sets match multierr old new allowed_keys ref ≡ none)
        ↔ ChangesAllowed old new allowed_keys
  unfolding validate_changed_map
  validate_changed_map_iff old new allowed_keys ref ho hn =
      let (to, from) =
        combine-none_iff
          (violations sets match multierr allowed_keys ref (changed_keys sets old new)) in
      let (to', from') = violations-nil_iff allowed_keys ref (changed_keys sets old new) in
      (
        λ h k differ. to' (to h) k ((changed_keys_iff sets k old new ho hn).1 differ),
        λ h. from (from' (λ k e. h k ((changed_keys_iff sets k old new ho hn).0 e))),
      )

  compare_objects_iff :
      (v : NamespaceMetadataValidator) (old new : Unstructured)
      → IsMap old.annotations
      → IsMap new.annotations
      → IsMap old.labels
      → IsMap new.labels
      → (is_allowed (compare_objects sets match multierr v old new) ≡ true) ↔ (
          ChangesAllowed old.annotations new.annotations v.allowed_annotations
          × ChangesAllowed old.labels new.labels v.allowed_labels)
  unfolding compare_objects
  compare_objects_iff v old new ao an lo ln =
      let (to, from) =
        validate_changed_map_iff old.annotations new.annotations v.allowed_annotations "annotation"
          ao an in
      let (to', from') =
        validate_changed_map_iff old.labels new.labels v.allowed_labels "label" lo ln in
      (λ h. (to (ground arith), to' (ground arith)), λ (a, l). ground (arith, from a, from' l))

  -- A request that the skipper lets be checked, and whose objects can be decoded, with maps as their
  -- annotations and labels, is admitted exactly
  -- when its name matches no reserved pattern and every annotation and every label that it adds,
  -- removes or changes matches an allowed pattern.
  pub handle-ChangesAllowed_iff :
      (v : NamespaceMetadataValidator) (req : Request) (old new : Unstructured)
      → IsChecked (v.skipper req)
      → decode_old sets match multierr v req ≡ ok old
      → v.decoder.decode req ≡ ok new
      → IsMap old.annotations
      → IsMap new.annotations
      → IsMap old.labels
      → IsMap new.labels
      → (is_allowed (handle sets match multierr v req) ≡ true) ↔ (
          All (λ p. match p req.name ≡ false) v.reserved_namespaces
          × ChangesAllowed old.annotations new.annotations v.allowed_annotations
          × ChangesAllowed old.labels new.labels v.allowed_labels)
  unfolding handle
  handle-ChangesAllowed_iff v req old new c decoded_old decoded ao an lo ln =
      let (to, from) = compare_objects_iff v old new ao an lo ln in
      let (free, reserve) = any-false_iff (λ p. match p req.name) v.reserved_namespaces in
      (
        λ h. (free (ground arith), (to (ground arith)).0, (to (ground arith)).1),
        λ (name_free, a, l). ground (arith, reserve name_free, from (a, l)),
      )
