-- ===== src/Main/Run.antt =====
-- main.go: what the start of the program does is an exit or a result. An exit has the message that is
-- logged, the name of the controller that is logged with it, and the error.
use appuio_cloud_agent.Base.{String, Option, none, some}
use appuio_cloud_agent.Kube.{Error, Result, ok, err}

pub data Run {ℓ} (A : Type ℓ) : Type ℓ where
  running : A → Run A
  exited : String → String → Option Error → Run A

infixl 5 ◌>>=◌ ◌>>◌
abbrev pub ◌>>=◌ {ℓ κ} : {A : Type ℓ} {B : Type κ} → Run A → (A → Run B) → Run B
running a >>= f = f a
exited message name e >>= f = exited message name e

abbrev pub ◌>>◌ {ℓ} : {B : Type ℓ} → Run (Unit {0}) → Run B → Run B
m >> k = m >>= λ _. k

abbrev pub or_exit {ℓ} : {A : Type ℓ} → String → Result A → Run A
or_exit message (ok a) = running a
or_exit message (err e) = exited message "" (some e)

abbrev pub check : String → String → Option Error → Run (Unit {0})
check message name none = running tt
check message name (some e) = exited message name (some e)
