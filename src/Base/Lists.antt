-- ===== src/Base/Lists.antt =====
-- Lists over the native numbers, Boolean searches, and predicates by recursion.
use Prim.Native.Nat.{ℕ, suc}
use Prim.Native.String.{String}
use mathlib.Core.Path.{◌≡◌, refl}
use mathlib.Core.Bool.{Bool, true, false, ◌&&◌, ◌||◌}
use mathlib.Core.Logic.{◌⊎◌, ◌↔◌, inl, inr}
use mathlib.Core.List.{List, [], ◌∷◌, ◌++◌}
use native.Mathlib.Omega.{arith}
use text.Mathlib.Text.{◌==◌}
use text.Mathlib.TextEquality.{eq_iff}

module _ {ℓ} {A : Type ℓ} where
  abbrev pub length : List A → ℕ
  length [] = 0
  length (x ∷ xs) = suc (length xs)

  -- `slices.ContainsFunc`, and each `for` loop that returns at the first hit.
  abbrev pub any : (A → Bool) → List A → Bool
  any p [] = false
  any p (x ∷ xs) = p x || any p xs

  abbrev pub all : (A → Bool) → List A → Bool
  all p [] = true
  all p (x ∷ xs) = p x && all p xs

  abbrev pub keep : (A → Bool) → List A → List A
  keep p [] = []
  keep p (x ∷ xs) = let rest = keep p xs in elim (p x) [ true ↦ x ∷ rest | false ↦ rest ]

-- `slices.Contains` on strings.
abbrev pub contains : List String → String → Bool
contains xs k = any (λ x. x == k) xs

module _ {ℓ κ} {A : Type ℓ} (P : A → Type κ) where
  abbrev pub All : List A → Type κ
  All [] = Unit
  All (x ∷ xs) = P x × All xs

module _ {ℓ} {A : Type ℓ} (P : A → Type 0) where
  abbrev pub Any : List A → Type 0
  Any [] = ⊥
  Any (x ∷ xs) = P x ⊎ Any xs

-- Membership, as a predicate that computes.
abbrev pub In : {A : Type 0} → A → List A → Type 0
In a [] = ⊥
In a (x ∷ xs) = (x ≡ a) ⊎ In a xs

module _ {ℓ} {A : Type ℓ} (p : A → Bool) where
  pub any_iff : (xs : List A) → (any p xs ≡ true) ↔ Any (λ x. p x ≡ true) xs
  any_iff [] = ground arith
  any_iff (x ∷ xs) = ground (arith, any_iff xs)

  pub any-false_iff : (xs : List A) → (any p xs ≡ false) ↔ All (λ x. p x ≡ false) xs
  any-false_iff [] = ground arith
  any-false_iff (x ∷ xs) = ground (arith, any-false_iff xs)

  pub all_iff : (xs : List A) → (all p xs ≡ true) ↔ All (λ x. p x ≡ true) xs
  all_iff [] = ground arith
  all_iff (x ∷ xs) = ground (arith, all_iff xs)

pub contains_iff : (xs : List String) (k : String) → (contains xs k ≡ true) ↔ In k xs
contains_iff [] k = ground arith
contains_iff (x ∷ xs) k = ground (arith, eq_iff x k, contains_iff xs k)

module _ {ℓ κ} {A : Type ℓ} {P Q : A → Type κ} (f : (x : A) → P x → Q x) where
  pub All-map : (xs : List A) → All P xs → All Q xs
  All-map [] h = tt
  All-map (x ∷ xs) h = (f x h.0, All-map xs h.1)

module _ {ℓ} {A : Type ℓ} {P Q : A → Type 0} (f : (x : A) → P x → Q x) where
  pub Any-map : (xs : List A) → Any P xs → Any Q xs
  Any-map [] h = h
  Any-map (x ∷ xs) (inl h) = inl (f x h)
  Any-map (x ∷ xs) (inr h) = inr (Any-map xs h)

module _ {ℓ} {A : Type 0} (P : A → Type ℓ) where
  pub All-In : (xs : List A) {a : A} → All P xs → In a xs → P a
  All-In [] h e = absurd e
  All-In (x ∷ xs) h (inl e) = rw e at h.0
  All-In (x ∷ xs) h (inr e) = All-In xs h.1 e

module _ {A : Type 0} (P : A → Type 0) where
  pub Any-In : (xs : List A) → Any P xs → (a : A) × In a xs × P a
  Any-In [] h = absurd h
  Any-In (x ∷ xs) (inl h) = (x, inl refl, h)
  Any-In (x ∷ xs) (inr h) = let (a, e, q) = Any-In xs h in (a, inr e, q)

module _ {ℓ} {A : Type ℓ} (P : A → Type 0) where
  pub Any-append_iff : (xs ys : List A) → Any P (xs ++ ys) ↔ (Any P xs ⊎ Any P ys)
  Any-append_iff [] ys = (λ h. inr h, λ h. elim h [ inl e ↦ absurd e | inr k ↦ k ])
  Any-append_iff (x ∷ xs) ys =
      let (to, from) = Any-append_iff xs ys in
      (
        λ h. elim h [
          | inl p ↦ inl (inl p)
          | inr k ↦ elim (to k) [ inl p ↦ inl (inr p) | inr q ↦ inr q ]
        ],
        λ h. elim h [
          | inl (inl p) ↦ inl p
          | inl (inr p) ↦ inr (from (inl p))
          | inr q ↦ inr (from (inr q))
        ],
      )

pub append-nil {ℓ} : {A : Type ℓ} (xs ys : List A) → xs ++ ys ≡ [] → (xs ≡ []) × (ys ≡ [])
append-nil [] ys h = (refl, h)
append-nil (x ∷ xs) ys h = absurd (ground arith)
