-- ===== src/Controllers/QuotaTransformer/Overrides.antt =====
-- controllers/transformers/resourcequota.go: the overrides that the annotations name.
use mathlib.Core.Path.{subst}
use appuio_cloud_agent.Base.{
  String, String-cases, ◌≡◌, refl, sym, ap, ◌∙◌, ◌↔◌, ◌⊎◌, inl, inr, List, [], ◌∷◌, ◌++◌, Any, In,
  Option, none, some, Dict, lookup, lookup-insert, eq_iff, cut, cut_prefix, arith,
}
use appuio_cloud_agent.Kube.{Result, ok, err}
use appuio_cloud_agent.Controllers.QuotaTransformer.{
  Kv, or_nil, push, push_all, on_key, Parsed, add_all, on_cut, on_suffix, overrides_from_obj,
}

-- What is listed for an object.
abbrev pub at : String → Dict (List Kv) → List Kv
at n m = or_nil (lookup n m)

In-append_iff : (x : Kv) (xs ys : List Kv) → In x (xs ++ ys) ↔ (In x xs ⊎ In x ys)
In-append_iff x [] ys = (λ h. inr h, λ h. elim h [ inl n ↦ absurd n | inr m ↦ m ])
In-append_iff x (y ∷ xs) ys =
    let (to, from) = In-append_iff x xs ys in (λ h. ground arith, λ h. ground arith)

In-push_iff :
    (n i : String) (x y : Kv) (m : Dict (List Kv))
    → In x (at n (push i y m)) ↔ (In x (at n m) ⊎ ((i ≡ n) × (y ≡ x)))
In-push_iff n i x y m = elim (String-cases i n) [
  | inl same ↦
      let listed : at n (push i y m) ≡ at i m ++ (y ∷ []) =
        ap or_nil (lookup-insert i n (at i m ++ (y ∷ [])) m) ∙ rw ((eq_iff i n).1 same) refl in
      let (to, from) = In-append_iff x (at i m) (y ∷ []) in
      (
        λ h. elim (to (subst (In x) listed h)) [
          | inl old ↦ inl (subst (λ j. In x (at j m)) same old)
          | inr (inl e) ↦ inr (same, e)
          | inr (inr never) ↦ absurd never
        ],
        λ h. subst (In x) (sym listed) (elim h [
          | inl old ↦ from (inl (subst (λ j. In x (at j m)) (sym same) old))
          | inr (_, e) ↦ from (inr (inl e))
        ]),
      )
  | inr other ↦
      let listed : at n (push i y m) ≡ at n m =
        ap or_nil (lookup-insert i n (at i m ++ (y ∷ [])) m) ∙ rw other refl in
      (
        λ h. inl (subst (In x) listed h),
        λ h. elim h [
          | inl old ↦ subst (In x) (sym listed) old
          | inr (same, _) ↦ absurd (ground (arith, eq_iff i n))
        ],
      )
]

In-push_all_iff :
    (n i : String) (x : Kv) (ys : List Kv) (m : Dict (List Kv))
    → In x (at n (push_all i ys m)) ↔ (In x (at n m) ⊎ ((i ≡ n) × In x ys))
In-push_all_iff n i x [] m =
    (λ h. inl h, λ h. elim h [ inl old ↦ old | inr (_, never) ↦ absurd never ])
In-push_all_iff n i x (y ∷ ys) m =
    let (to, from) = In-push_all_iff n i x ys (push i y m) in
    let (to_one, from_one) = In-push_iff n i x y m in
    (
      λ h. elim (to h) [
        | inl old ↦ elim (to_one old) [ inl older ↦ inl older | inr (e, f) ↦ inr (e, inl f) ]
        | inr (e, f) ↦ inr (e, inr f)
      ],
      λ h. elim h [
        | inl old ↦ from (inl (from_one (inl old)))
        | inr (e, inl f) ↦ from (inl (from_one (inr (e, f))))
        | inr (e, inr f) ↦ from (inr (e, f))
      ],
    )

module _ (unmarshal : String → Result (Dict String)) (base : String) where
  -- The annotation is for the object `n`, and sets `x` on it.
  abbrev pub Sets : String → Kv → String × String → Type 0
  Sets n x (k, v) =
      (suffix : String) × (cut_prefix base k ≡ some suffix)
      × ((key : String) × (cut b'.' suffix ≡ some (n, key))
          × ((kvs : List Kv) × (on_key unmarshal key v ≡ ok kvs) × In x kvs))

  In-add_all_iff :
      (n i : String) (x : Kv) (r : Result (List Kv)) (p : Parsed unmarshal)
      → In x (at n (add_all unmarshal i r p).0)
        ↔ (In x (at n p.0) ⊎ ((i ≡ n) × ((kvs : List Kv) × (r ≡ ok kvs) × In x kvs)))
  In-add_all_iff n i x (ok kvs) p =
      let (to, from) = In-push_all_iff n i x kvs p.0 in
      (
        λ h. elim (to h) [ inl old ↦ inl old | inr (e, there) ↦ inr (e, (kvs, refl, there)) ],
        λ h. elim h [
          | inl old ↦ from (inl old)
          | inr (e, (kvs', same, there)) ↦
              let equal : kvs' ≡ kvs = ground arith in from (inr (e, subst (In x) equal there))
        ],
      )
  In-add_all_iff n i x (err e) p =
      (λ h. inl h, λ h. elim h [ inl old ↦ old | inr (_, (_, never, _)) ↦ absurd (ground arith) ])

  In-on_cut_iff :
      (n k v : String) (x : Kv) (c : Option (String × String)) (p : Parsed unmarshal)
      → In x (at n (on_cut unmarshal k v c p).0) ↔ (
          In x (at n p.0)
          ⊎ ((key : String) × (c ≡ some (n, key))
              × ((kvs : List Kv) × (on_key unmarshal key v ≡ ok kvs) × In x kvs)))
  In-on_cut_iff n k v x none p =
      (λ h. inl h, λ h. elim h [ inl old ↦ old | inr (_, never, _) ↦ absurd (ground arith) ])
  In-on_cut_iff n k v x (some (i, key)) p =
      let (to, from) = In-add_all_iff n i x (on_key unmarshal key v) p in
      (
        λ h. elim (to h) [
          | inl old ↦ inl old
          | inr (e, there) ↦ inr (key, ap (λ j. some (j, key)) e, there)
        ],
        λ h. elim h [
          | inl old ↦ from (inl old)
          | inr (key', same, there) ↦
              let name : i ≡ n = ground arith in
              let keys : key' ≡ key = ground arith in
              from (
                inr (
                  name,
                  subst (λ z. (kvs : List Kv) × (on_key unmarshal z v ≡ ok kvs) × In x kvs) keys
                      there,
                ))
        ],
      )

  In-on_suffix_iff :
      (n k v : String) (x : Kv) (o : Option String) (p : Parsed unmarshal)
      → In x (at n (on_suffix unmarshal k v o p).0) ↔ (
          In x (at n p.0)
          ⊎ ((suffix : String) × (o ≡ some suffix)
              × ((key : String) × (cut b'.' suffix ≡ some (n, key))
                  × ((kvs : List Kv) × (on_key unmarshal key v ≡ ok kvs) × In x kvs))))
  In-on_suffix_iff n k v x none p =
      (λ h. inl h, λ h. elim h [ inl old ↦ old | inr (_, never, _) ↦ absurd (ground arith) ])
  In-on_suffix_iff n k v x (some s) p =
      let (to, from) = In-on_cut_iff n k v x (cut b'.' s) p in
      (
        λ h. elim (to h) [ inl old ↦ inl old | inr there ↦ inr (s, refl, there) ],
        λ h. elim h [
          | inl old ↦ from (inl old)
          | inr (s', same, there) ↦
              let equal : s' ≡ s = ground arith in
              from (
                inr (
                  subst
                    (λ z.
                      (key : String) × (cut b'.' z ≡ some (n, key))
                      × ((kvs : List Kv) × (on_key unmarshal key v ≡ ok kvs) × In x kvs))
                    equal there))
        ],
      )

  -- The overrides for an object are those that one of the annotations sets on it, and the ones that
  -- were there before.
  pub In-overrides_from_obj_iff :
      (n : String) (x : Kv) (annotations : Dict String) (p : Parsed unmarshal)
      → In x (at n (overrides_from_obj unmarshal base annotations p).0)
        ↔ (In x (at n p.0) ⊎ Any (Sets n x) annotations)
  unfolding overrides_from_obj
  In-overrides_from_obj_iff n x [] p =
      (λ h. inl h, λ h. elim h [ inl old ↦ old | inr never ↦ absurd never ])
  In-overrides_from_obj_iff n x ((k, v) ∷ annotations) p =
      let (to, from) =
        In-overrides_from_obj_iff n x annotations (on_suffix unmarshal k v (cut_prefix base k) p) in
      let (to_one, from_one) = In-on_suffix_iff n k v x (cut_prefix base k) p in
      (
        λ h. elim (to h) [
          | inl old ↦ elim (to_one old) [ inl older ↦ inl older | inr here ↦ inr (inl here) ]
          | inr there ↦ inr (inr there)
        ],
        λ h. elim h [
          | inl older ↦ from (inl (from_one (inl older)))
          | inr (inl here) ↦ from (inl (from_one (inr here)))
          | inr (inr there) ↦ from (inr there)
        ],
      )
