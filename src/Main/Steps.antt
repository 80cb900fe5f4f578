-- ===== src/Main/Steps.antt =====
-- main.go: a list of steps is done to its end exactly when every controller of it can be set up.

use mathlib.Core.List.{append-nil, append_assoc}
use appuio_cloud_agent.Base.{
  String, ◌≡◌, refl, sym, ap, ◌∙◌, ◌↔◌, List, [], ◌∷◌, ◌++◌, Option, none, some, Dict, All,
}
use appuio_cloud_agent.Kube.{Error, Result, ok, err}
use appuio_cloud_agent.Main.Environment.{Libraries, Manager, Controller, Handler, Environment}
use appuio_cloud_agent.Main.Run.{Run, running, exited, ◌>>=◌, ◌>>◌, or_exit, check}
use appuio_cloud_agent.Main.Program.{Agent, Step, register, set_up, do_step, run}

pub or_exit-running_iff {ℓ} :
    {A : Type ℓ} (message : String) (r : Result A) (a : A)
    → (or_exit message r ≡ running a) ↔ (r ≡ ok a)
or_exit-running_iff message (ok b) a = (λ h. cc, λ h. cc)
or_exit-running_iff message (err e) a = (λ h. absurd (cc), λ h. absurd (cc))

pub check-running :
    (message name : String) (e : Option Error) (u : Unit {0})
    → check message name e ≡ running u
    → e ≡ none
check-running message name none u h = refl
check-running message name (some e) u h = absurd (cc)

pub >>=-running {ℓ κ} :
    {A : Type ℓ} {B : Type κ} (m : Run A) (f : A → Run B) (b : B)
    → (m >>= f) ≡ running b
    → (a : A) × (m ≡ running a) × (f a ≡ running b)
>>=-running (running a) f b h = (a, refl, h)
>>=-running (exited message name e) f b h = absurd (cc)

pub >>=-running_iff {ℓ κ} :
    {A : Type ℓ} {B : Type κ} (m : Run A) (f : A → Run B) (b : B)
    → ((m >>= f) ≡ running b) ↔ ((a : A) × (m ≡ running a) × (f a ≡ running b))
>>=-running_iff m f b = (λ h. >>=-running m f b h, λ (a, did, rest). ap (λ z. z >>= f) did ∙ rest)

-- What comes after a check is done when the check finds no error.
pub check-then_iff {ℓ} :
    {B : Type ℓ} (message name : String) (e : Option Error) (k : Run B) (b : B)
    → ((check message name e >> k) ≡ running b) ↔ ((e ≡ none) × (k ≡ running b))
check-then_iff message name none k b = (λ h. (refl, h), λ (_, h). h)
check-then_iff message name (some e) k b = (λ h. absurd (cc), λ (h, _). absurd (cc))

-- Two checks, and what comes after them.
pub checks-then_iff {ℓ} :
    {B : Type ℓ} (m1 n1 m2 n2 : String) (e1 e2 : Option Error) (k : Run B) (b : B)
    → ((check m1 n1 e1 >> check m2 n2 e2 >> k) ≡ running b)
      ↔ ((e1 ≡ none) × (e2 ≡ none) × (k ≡ running b))
checks-then_iff m1 n1 m2 n2 none none k b = (λ h. (refl, refl, h), λ (_, _, h). h)
checks-then_iff m1 n1 m2 n2 none (some e) k b = (λ h. absurd (cc), λ (_, h, _). absurd (cc))
checks-then_iff m1 n1 m2 n2 (some e) e2 k b = (λ h. absurd (cc), λ (h, _, _). absurd (cc))

module _ {S X L : Type 0} (lib : Libraries S) (env : Environment S lib.decimal.D X L)
    (mgr : Manager lib.decimal.D) where
  abbrev pub handlers_of : List (Step lib env mgr) → Dict Handler
  handlers_of [] = []
  handlers_of (register path h ∷ ss) = (path, h) ∷ handlers_of ss
  handlers_of (set_up name c ∷ ss) = handlers_of ss

  abbrev pub controllers_of : List (Step lib env mgr) → List (Controller S lib.decimal.D X L)
  controllers_of [] = []
  controllers_of (register path h ∷ ss) = controllers_of ss
  controllers_of (set_up name c ∷ ss) = c ∷ controllers_of ss

  pub handlers_of-append :
      (ss ts : List (Step lib env mgr)) → handlers_of (ss ++ ts) ≡ handlers_of ss ++ handlers_of ts
  handlers_of-append [] ts = refl
  handlers_of-append (register path h ∷ ss) ts = ap (λ z. (path, h) ∷ z) (handlers_of-append ss ts)
  handlers_of-append (set_up name c ∷ ss) ts = handlers_of-append ss ts

  -- The controllers can be set up.
  abbrev pub CanSetUp : List (Controller S lib.decimal.D X L) → Type 0
  CanSetUp = All (λ c. env.set_up c ≡ none)

  abbrev pub after : List (Step lib env mgr) → Agent lib env mgr → Agent lib env mgr
  after ss a = record {
    handlers = a.handlers ++ handlers_of ss;
    controllers = a.controllers ++ controllers_of ss;
  }

  after-nil : (a : Agent lib env mgr) → after [] a ≡ a
  after-nil a = rw (append-nil a.handlers, append-nil a.controllers) refl

  after_register :
      (path : String) (h : Handler) (ss : List (Step lib env mgr)) (a : Agent lib env mgr)
      → after ss (record a { handlers = a.handlers ++ ((path, h) ∷ []) })
        ≡ after (register path h ∷ ss) a
  after_register path h ss a = rw (append_assoc a.handlers ((path, h) ∷ []) (handlers_of ss)) refl

  after-set_up :
      (name : String) (c : Controller S lib.decimal.D X L) (ss : List (Step lib env mgr))
      (a : Agent lib env mgr)
      → after ss (record a { controllers = a.controllers ++ (c ∷ []) })
        ≡ after (set_up name c ∷ ss) a
  after-set_up name c ss a = rw (append_assoc a.controllers (c ∷ []) (controllers_of ss)) refl

  pub run-running :
      (ss : List (Step lib env mgr)) (a b : Agent lib env mgr)
      → run lib env mgr ss a ≡ running b
      → CanSetUp (controllers_of ss) × (b ≡ after ss a)
  unfolding run do_step
  run-running [] a b h = (tt, (let same : a ≡ b = cc in sym same ∙ sym (after-nil a)))
  run-running (register path k ∷ ss) a b h =
      let (set, same) =
        run-running ss (record a { handlers = a.handlers ++ ((path, k) ∷ []) }) b h in
      (set, same ∙ after_register path k ss a)
  run-running (set_up name c ∷ ss) a b h =
      let (a', did, rest) =
        >>=-running (do_step lib env mgr (set_up name c) a) (λ z. run lib env mgr ss z) b h in
      let (works, moved) =
        (check-then_iff "unable to create controller" name (env.set_up c)
            (running (record a { controllers = a.controllers ++ (c ∷ []) })) a').0
          did in
      let next : record a { controllers = a.controllers ++ (c ∷ []) } ≡ a' = cc in
      let (set, same) = run-running ss a' b rest in
      ((works, set), same ∙ ap (after ss) (sym next) ∙ after-set_up name c ss a)

  pub running-run :
      (ss : List (Step lib env mgr)) (a : Agent lib env mgr)
      → CanSetUp (controllers_of ss)
      → run lib env mgr ss a ≡ running (after ss a)
  unfolding run do_step
  running-run [] a set = ap running (sym (after-nil a))
  running-run (register path k ∷ ss) a set =
      running-run ss (record a { handlers = a.handlers ++ ((path, k) ∷ []) }) set
      ∙ ap running (after_register path k ss a)
  running-run (set_up name c ∷ ss) a (works, set) =
      let next = record a { controllers = a.controllers ++ (c ∷ []) } in
      ap
        (λ e. (check "unable to create controller" name e >> running next) >>= λ z.
          run lib env mgr ss z)
        works
      ∙ running-run ss next set
      ∙ ap running (after-set_up name c ss a)

  -- What comes after the steps is done when the controllers can be set up.
  pub run-then_iff {ℓ} :
      {B : Type ℓ} (ss : List (Step lib env mgr)) (a : Agent lib env mgr)
      (k : Agent lib env mgr → Run B) (b : B)
      → ((run lib env mgr ss a >>= k) ≡ running b)
        ↔ (CanSetUp (controllers_of ss) × (k (after ss a) ≡ running b))
  run-then_iff ss a k b = (
    λ h.
        (let (a', did, rest) = >>=-running (run lib env mgr ss a) k b h in
          let (set, moved) = run-running ss a a' did in (set, ap k (sym moved) ∙ rest)),
    λ (set, rest). ap (λ m. m >>= k) (running-run ss a set) ∙ rest,
  )

  pub run-running_iff :
      (ss : List (Step lib env mgr)) (a b : Agent lib env mgr)
      → (run lib env mgr ss a ≡ running b) ↔ (CanSetUp (controllers_of ss) × (b ≡ after ss a))
  run-running_iff ss a b =
      (λ h. run-running ss a b h, λ (set, moved). running-run ss a set ∙ ap running (sym moved))

  -- A check before the steps.
  pub check-run-then_iff {ℓ} :
      {B : Type ℓ} (message name : String) (e : Option Error) (ss : List (Step lib env mgr))
      (a : Agent lib env mgr) (k : Agent lib env mgr → Run B) (b : B)
      → (((check message name e >> run lib env mgr ss a) >>= k) ≡ running b)
        ↔ ((e ≡ none) × CanSetUp (controllers_of ss) × (k (after ss a) ≡ running b))
  check-run-then_iff message name none ss a k b = (
    λ h. (let (set, rest) = (run-then_iff ss a k b).0 h in (refl, set, rest)),
    λ (_, set, rest). (run-then_iff ss a k b).1 (set, rest),
  )
  check-run-then_iff message name (some e) ss a k b = (λ h. absurd (cc), λ (h, _, _). absurd (cc))
