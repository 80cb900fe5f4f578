-- ===== src/Main/Exit.antt =====
-- main.go: the end of `main` never gets stuck, and the exit code tells whether a manager failed.
use mathlib.Core.List.{append-nil}
use mathlib.Core.Path.{subst}
use appuio_cloud_agent.Base.{
  ℕ, ◌<◌, ◌≤◌, Bool-cases, true, false, List, [], ◌∷◌, ◌++◌, length, Option, Option-cases, none,
  some, ◌≡◌, ◌≢◌, refl, sym, ap, ◌∙◌, ◌⊎◌, inl, inr, arith,
}
use appuio_cloud_agent.Kube.{Error, Multierr}
use appuio_cloud_agent.Main.Shutdown.{
  Phase, serving, sending, deferred, finished, Shared, State, Move, returns, sends, cancels, Reach,
  errors, code_of, exit_code,
}
use appuio_cloud_agent.Main.Stopping.{sent, HasCancelled, AreReceived, swap, Reach-IsSound}

-- The goroutine does not wait for something outside the program, if `Start` returns once its context is
-- cancelled.
abbrev pub IsDue : Phase → Shared → Type 0
IsDue serving w = w.cancelled ≡ true
IsDue _ w = Unit

abbrev pub CanMove : Phase → Shared → Type 0
CanMove p w = (p' : Phase) × (w' : Shared) × IsDue p w × Move p w p' w'

abbrev pub IsOver : Multierr → Shared → Type 0
IsOver multierr w = (c : ℕ) × (exit_code multierr w.received ≡ some c)

abbrev pub AreServing : Phase → Phase → Shared → Type 0
AreServing p q w = (p ≡ serving) × (q ≡ serving) × (w.cancelled ≡ false)

sent-length : (p : Phase) → length (sent p) ≤ 1
sent-length serving = omega arith
sent-length (sending e) = omega arith
sent-length (deferred e) = omega arith
sent-length (finished e) = omega arith

-- `main` still receives while a goroutine has not sent.
room :
    (q : Phase) (w : Shared)
    → (w.received ≡ sent q) ⊎ (w.received ≡ sent q ++ [])
    → length w.received < 2
room q w (inl h) = rw h (let k = sent-length q in omega arith)
room q w (inr h) = rw (h, append-nil (sent q)) (let k = sent-length q in omega arith)

waiting-cases :
    (p q : Phase) (w : Shared)
    → AreReceived p q w
    → CanMove p w
      ⊎ (((p ≡ serving) × (w.cancelled ≡ false)) ⊎ ((e : Option Error) × (p ≡ finished e)))
waiting-cases serving q w all = elim (Bool-cases w.cancelled) [
  | inl yes_ ↦ inl (_, _, yes_, returns none)
  | inr no_ ↦ inr (inl (refl, no_))
]
waiting-cases (sending e) q w all = inl (_, _, tt, sends e (room q w all))
waiting-cases (deferred e) q w all = inl (_, _, tt, cancels e)
waiting-cases (finished e) q w all = inr (inr (e, refl))

finished-cancelled :
    (p : Phase) (w : Shared) (e : Option Error)
    → p ≡ finished e
    → HasCancelled p w
    → w.cancelled ≡ true
finished-cancelled p w e h c = subst (λ z. HasCancelled z w) h c

finished-IsOver :
    (multierr : Multierr) (p q : Phase) (w : Shared) (x y : Option Error)
    → p ≡ finished x
    → q ≡ finished y
    → AreReceived p q w
    → IsOver multierr w
unfolding exit_code
finished-IsOver multierr p q w x y hp hq (inl h) =
    (_, ap (exit_code multierr) (h ∙ ap (λ z. sent z ++ sent q) hp ∙ ap (λ z. x ∷ sent z) hq))
finished-IsOver multierr p q w x y hp hq (inr h) =
    (_, ap (exit_code multierr) (h ∙ ap (λ z. sent z ++ sent p) hq ∙ ap (λ z. y ∷ sent z) hp))

moves-cases :
    (multierr : Multierr) (p q : Phase) (w : Shared)
    → AreReceived p q w
    → HasCancelled p w
    → HasCancelled q w
    → AreServing p q w ⊎ (IsOver multierr w ⊎ (CanMove p w ⊎ CanMove q w))
moves-cases multierr p q w all c a = elim (waiting-cases p q w all) [
  | inl m ↦ inr (inr (inl m))
  | inr still ↦ elim (waiting-cases q p w (swap p q w all)) [
    | inl m ↦ inr (inr (inr m))
    | inr still' ↦ both still still'
  ]
]
  where
    both :
        (((p ≡ serving) × (w.cancelled ≡ false)) ⊎ ((e : Option Error) × (p ≡ finished e)))
        → (((q ≡ serving) × (w.cancelled ≡ false)) ⊎ ((e : Option Error) × (q ≡ finished e)))
        → AreServing p q w ⊎ (IsOver multierr w ⊎ (CanMove p w ⊎ CanMove q w))
    both (inl (hp, off)) (inl (hq, _)) = inl (hp, hq, off)
    both (inl (hp, off)) (inr (y, hq)) = absurd (let on = finished-cancelled q w y hq a in cc)
    both (inr (x, hp)) (inl (hq, off)) = absurd (let on = finished-cancelled p w x hp c in cc)
    both (inr (x, hp)) (inr (y, hq)) = inr (inl (finished-IsOver multierr p q w x y hp hq all))

-- In every order of the steps, either both managers serve and the context is not cancelled, or `main`
-- has both results and an exit code, or one of the goroutines can take a step: it sends, it cancels, or
-- its `Start` returns since the context is cancelled.
pub Reach-CanMove :
    (multierr : Multierr) (n : ℕ) (s : State)
    → Reach n s
    → AreServing s.control_api s.agent s.shared
      ⊎ (IsOver multierr s.shared ⊎ (CanMove s.control_api s.shared ⊎ CanMove s.agent s.shared))
Reach-CanMove multierr n s r =
    let (all, c, a) = Reach-IsSound n s r in
    moves-cases multierr s.control_api s.agent s.shared all c a

-- The code is 0 and no manager failed, or it is 1 and one of them failed.
abbrev pub Tells : ℕ → Option Error → Option Error → Type 0
Tells c x y = ((c ≡ 0) × (x ≡ none) × (y ≡ none)) ⊎ ((c ≡ 1) × ((x ≢ none) ⊎ (y ≢ none)))

failed :
    (multierr : Multierr) (e : Error) (es : List Error) → code_of (multierr.combine (e ∷ es)) ≡ 1
failed multierr e es = elim (Option-cases (multierr.combine (e ∷ es))) [
  | inl nothing ↦ absurd (multierr.combine-cons e es nothing)
  | inr (f, some_f) ↦ ap code_of some_f
]

code-cases :
    (multierr : Multierr) (x y : Option Error)
    → Tells (code_of (multierr.combine (errors (x ∷ y ∷ [])))) x y
code-cases multierr none none = inl (ap code_of multierr.combine-nil, refl, refl)
code-cases multierr none (some e) = inr (failed multierr e [], inr (λ h. absurd (cc)))
code-cases multierr (some e) none = inr (failed multierr e [], inl (λ h. absurd (cc)))
code-cases multierr (some e) (some f) = inr (failed multierr e (f ∷ []), inl (λ h. absurd (cc)))

sent-cases : (p : Phase) → (sent p ≡ []) ⊎ ((e : Option Error) × (sent p ≡ e ∷ []))
sent-cases serving = inl refl
sent-cases (sending e) = inl refl
sent-cases (deferred e) = inr (e, refl)
sent-cases (finished e) = inr (e, refl)

exit_code-length :
    (multierr : Multierr) (rs : List (Option Error)) (c : ℕ)
    → exit_code multierr rs ≡ some c
    → 2 ≤ length rs
unfolding exit_code
exit_code-length multierr [] c h = absurd (cc)
exit_code-length multierr (x ∷ []) c h = absurd (cc)
exit_code-length multierr (x ∷ y ∷ rs) c h = omega arith

exit_code-Tells :
    (multierr : Multierr) (rs : List (Option Error)) (x y : Option Error) (c : ℕ)
    → rs ≡ x ∷ y ∷ []
    → exit_code multierr rs ≡ some c
    → Tells c x y
unfolding exit_code
exit_code-Tells multierr rs x y c same h =
    let both : some (code_of (multierr.combine (errors (x ∷ y ∷ [])))) ≡ some c =
      sym (ap (exit_code multierr) same) ∙ h in
    let one : code_of (multierr.combine (errors (x ∷ y ∷ []))) ≡ c = cc in
    subst (λ z. Tells z x y) one (code-cases multierr x y)

Tells-swap : (c : ℕ) (x y : Option Error) → Tells c x y → Tells c y x
Tells-swap c x y (inl (z, hx, hy)) = inl (z, hy, hx)
Tells-swap c x y (inr (z, inl hx)) = inr (z, inr hx)
Tells-swap c x y (inr (z, inr hy)) = inr (z, inl hy)

-- When `main` has an exit code, in whatever order the steps were, both goroutines have sent the result
-- of their manager, and the code is 0 if both results are nil, and 1 if one of them is an error.
pub Reach-exit_code :
    (multierr : Multierr) (n : ℕ) (s : State) (c : ℕ)
    → Reach n s
    → exit_code multierr s.shared.received ≡ some c
    → (x : Option Error) × (y : Option Error) × (sent s.control_api ≡ x ∷ [])
      × (sent s.agent ≡ y ∷ [])
      × Tells c x y
Reach-exit_code multierr n s c r h =
    let p = s.control_api in
    let q = s.agent in
    let w = s.shared in
    let all = (Reach-IsSound n s r).0 in
    let two = exit_code-length multierr w.received c h in
    elim (sent-cases p) [
      | inl none_p ↦ absurd (
          let all' =
            subst
              (λ (z : List (Option Error)). (w.received ≡ z ++ sent q) ⊎ (w.received ≡ sent q ++ z))
              none_p all in
          let less = room q w all' in omega arith)
      | inr (x, sent_p) ↦ elim (sent-cases q) [
        | inl none_q ↦ absurd (
            let all' =
              subst
                (λ (z : List (Option Error)).
                  (w.received ≡ z ++ sent p) ⊎ (w.received ≡ sent p ++ z))
                none_q (swap p q w all) in
            let less = room p w all' in omega arith)
        | inr (y, sent_q) ↦ (
          x,
          y,
          sent_p,
          sent_q,
          elim all [
            | inl same ↦
                exit_code-Tells multierr w.received x y c
                  (same ∙ ap (λ z. z ++ sent q) sent_p ∙ ap (λ z. x ∷ z) sent_q) h
            | inr same ↦ Tells-swap c y x (
                exit_code-Tells multierr w.received y x c
                  (same ∙ ap (λ z. z ++ sent p) sent_q ∙ ap (λ z. y ∷ z) sent_p) h)
          ],
        )
      ]
    ]
