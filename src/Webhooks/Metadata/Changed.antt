-- ===== src/Webhooks/Metadata/Changed.antt =====
-- `changed_keys` lists the keys at which two maps differ.
use appuio_cloud_agent.Base.{
  String, true, ◌≡◌, ◌≢◌, ◌↔◌, ◌⊎◌, inl, inr, [], ◌∷◌, Option, none, some, arith, Dict, lookup,
  IsMap, In, eq_iff, Bool-cases, Option-cases, String-cases,
}
use appuio_cloud_agent.Kube.{StringSet}
use appuio_cloud_agent.Webhooks.Metadata.{differs, insert_changed, changed_keys}

differs_iff : (v : String) (o : Option String) → (differs v o ≡ true) ↔ (o ≢ some v)
differs_iff v none = ground arith
differs_iff v (some w) = ground (arith, eq_iff v w)

-- The first map has a value at the key, and the second another or none.
abbrev Differing : String → Dict String → Dict String → Type 0
Differing k m other = (v : String) × (lookup k m ≡ some v) × (lookup k other ≢ some v)

module _ (sets : StringSet) where
  open sets use {Carrier, empty, insert, list, list-empty, list-insert_iff}

  Differing-cons_iff :
      (k j v : String) (m other : Dict String)
      → lookup j m ≡ none
      → Differing k ((j, v) ∷ m) other
        ↔ (((j ≡ k) × (lookup j other ≢ some v)) ⊎ Differing k m other)
  Differing-cons_iff k j v m other new = elim (String-cases j k) [
    | inl same ↦ (
      λ (x, p, q). inl (same, ground (arith, eq_iff j k)),
      λ h. elim h [
        | inl (e, q) ↦ (v, ground (arith, eq_iff j k), ground arith)
        | inr (x, p, q) ↦ absurd (ground arith)
      ],
    )
    | inr other_key ↦ (
      λ (x, p, q). inr (x, ground arith, q),
      λ h. elim h [
        | inl (e, q) ↦ absurd (ground (arith, eq_iff j k))
        | inr (x, p, q) ↦ (x, ground arith, q)
      ],
    )
  ]

  insert_changed_iff :
      (k : String) (m other : Dict String) (s : Carrier)
      → IsMap m
      → In k (list (insert_changed sets m other s)) ↔ (In k (list s) ⊎ Differing k m other)
  unfolding insert_changed
  insert_changed_iff k [] other s h =
      (λ e. inl e, λ e. elim e [ inl e' ↦ e' | inr (v, p, q) ↦ absurd (ground arith) ])
  insert_changed_iff k ((j, v) ∷ m) other s h =
      let (split, join) = Differing-cons_iff k j v m other h.0 in
      elim (Bool-cases (differs v (lookup j other))) [
        | inl differ ↦
            let (to, from) = insert_changed_iff k m other (insert j s) h.1 in
            let (to_insert, from_insert) = list-insert_iff j k s in
            rw differ (
              λ e. elim (to e) [
                | inl e' ↦ elim (to_insert e') [
                  | inl same ↦ inr (join (inl (same, (differs_iff v (lookup j other)).0 differ)))
                  | inr old ↦ inl old
                ]
                | inr d ↦ inr (join (inr d))
              ],
              λ e. elim e [
                | inl old ↦ from (inl (from_insert (inr old)))
                | inr d ↦ elim (split d) [
                  | inl (same, q) ↦ from (inl (from_insert (inl same)))
                  | inr d' ↦ from (inr d')
                ]
              ],
            )
        | inr equal ↦
            let (to, from) = insert_changed_iff k m other s h.1 in
            rw equal (
              λ e. elim (to e) [ inl old ↦ inl old | inr d ↦ inr (join (inr d)) ],
              λ e. elim e [
                | inl old ↦ from (inl old)
                | inr d ↦ elim (split d) [
                  | inl (same, q) ↦ absurd (ground (arith, differs_iff v (lookup j other)))
                  | inr d' ↦ from (inr d')
                ]
              ],
            )
      ]

  -- For two maps, `changed_keys` lists exactly the keys at which a lookup in the one and in the
  -- other give different results: keys added, removed, or given another value.
  pub changed_keys_iff :
      (k : String) (a b : Dict String)
      → IsMap a
      → IsMap b
      → In k (changed_keys sets a b) ↔ (lookup k a ≢ lookup k b)
  unfolding changed_keys
  changed_keys_iff k a b ha hb =
      let (to_b, from_b) = insert_changed_iff k b a (insert_changed sets a b empty) hb in
      let (to_a, from_a) = insert_changed_iff k a b empty ha in
      (
        λ e. elim (to_b e) [
          | inl e' ↦ elim (to_a e') [
            | inl e'' ↦ absurd (let none_in : In k [] = rw list-empty at e'' in none_in)
            | inr (v, p, q) ↦ ground arith
          ]
          | inr (v, p, q) ↦ ground arith
        ],
        λ different. elim (Option-cases (lookup k a)) [
          | inr (v, p) ↦ from_b (inl (from_a (inr (v, p, ground arith))))
          | inl absent ↦ elim (Option-cases (lookup k b)) [
            | inr (w, q) ↦ from_b (inr (w, q, ground arith))
            | inl absent' ↦ absurd (ground arith)
          ]
        ],
      )
