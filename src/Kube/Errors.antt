-- ===== src/Kube/Errors.antt =====
-- Errors as values, formatted messages, and calls that return a value or an error.
use appuio_cloud_agent.Base.{ℤ, String, Bool, true, false, List, Dict, ◌≡◌, refl, ◌⊎◌, inl, inr}

mutual
  -- A formatted message: literal text, and the arguments for `%s`, `%q`, `%d` and `%v` in their
  -- order. How `fmt` prints an argument is left out.
  pub data Message : Type 0 where
    end : Message
    lit : String → Message → Message
    str : String → Message → Message
    quoted : String → Message → Message
    num : ℤ → Message → Message
    strs : List String → Message → Message
    dict : Dict String → Message → Message
    cause : Error → Message → Message

  -- `not_found` is an error for which `apierrors.IsNotFound` holds; `external` is any other error
  -- of a library; `disabled` is `ratio.ErrorDisabled`. `errorf` is `errors.New` and `fmt.Errorf`
  -- without `%w`; `wrapf` is `fmt.Errorf` with `%w`, which `errors.Is` and `IsNotFound` look
  -- through.
  pub data Error : Type 0 where
    not_found : String → Error
    external : String → Error
    disabled : Error
    errorf : Message → Error
    wrapf : Message → Error → Error

abbrev pub text : String → Message
text s = lit s end

abbrev pub is_not_found : Error → Bool
is_not_found (not_found _) = true
is_not_found (wrapf _ e) = is_not_found e
is_not_found _ = false

-- `errors.Is(err, ratio.ErrorDisabled)`
abbrev pub is_disabled : Error → Bool
is_disabled disabled = true
is_disabled (wrapf _ e) = is_disabled e
is_disabled _ = false

-- The result of a Go function that returns `(A, error)`, where the value is not read after an error.
pub data Result {ℓ} (A : Type ℓ) : Type ℓ where
  ok : A → Result A
  err : Error → Result A

infixl 5 ◌>>=◌
abbrev pub ◌>>=◌ {ℓ κ} : {A : Type ℓ} {B : Type κ} → Result A → (A → Result B) → Result B
ok a >>= f = f a
err e >>= f = err e

pub Result-cases {ℓ} :
    {A : Type ℓ} (r : Result A) → ((a : A) × (r ≡ ok a)) ⊎ ((e : Error) × (r ≡ err e))
Result-cases (ok a) = inl (a, refl)
Result-cases (err e) = inr (e, refl)
