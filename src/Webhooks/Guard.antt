-- ===== src/Webhooks/Guard.antt =====
-- How each handler begins: it asks its skipper, and answers at once if that fails or skips.
use appuio_cloud_agent.Base.{Bool, true, false, ◌≡◌, refl, arith, Option, none, some, if◌then◌else◌}
use appuio_cloud_agent.Kube.{Error, Result, ok, err, text, Response, allowed, errored, is_allowed}

abbrev pub unless_skipped : (Error → Error) → Bool × Option Error → Response → Response
unless_skipped wrap (_, some e) rest = errored 500 (wrap e)
unless_skipped wrap (true, none) rest = allowed (text "skipped")
unless_skipped wrap (false, none) rest = rest

-- `x, err := call; if err != nil { return admission.Errored(code, …) }`
abbrev pub attempt {ℓ} : {A : Type ℓ} → Result A → (Error → Response) → (A → Response) → Response
attempt (ok a) fail rest = rest a
attempt (err e) fail rest = fail e

-- The answer of a skipper that lets the request be checked.
abbrev pub IsChecked : Bool × Option Error → Type 0
IsChecked r = r ≡ (false, none)

-- A response that is admitted does not come from a branch that refuses.
pub else_of_allowed :
    (b : Bool) (x r : Response)
    → is_allowed x ≡ false
    → is_allowed (if b then x else r) ≡ true
    → (if b then x else r) ≡ r
else_of_allowed true x r no_x h = absurd (ground arith)
else_of_allowed false x r no_x h = refl
