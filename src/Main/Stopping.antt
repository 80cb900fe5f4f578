-- ===== src/Main/Stopping.antt =====
-- main.go: what holds of the end of `main`, in every order of its steps.
use appuio_cloud_agent.Base.{
  ℕ, ◌+◌, ◌<◌, ◌≤◌, true, List, [], ◌∷◌, ◌++◌, Option, ◌≡◌, refl, ap, ◌∙◌, ◌⊎◌, inl, inr, arith,
  if◌then◌else◌,
}
use mathlib.Core.List.{append-nil}
use appuio_cloud_agent.Kube.{Error}
use appuio_cloud_agent.Main.Shutdown.{
  Phase, serving, sending, deferred, finished, Shared, State, Move, returns, sends, cancels, Step,
  moves_control_api, moves_agent, signal, Reach, start, later,
}

-- What a goroutine has sent.
abbrev pub sent : Phase → List (Option Error)
sent serving = []
sent (sending e) = []
sent (deferred e) = e ∷ []
sent (finished e) = e ∷ []

-- A finished goroutine has cancelled the context.
abbrev pub HasCancelled : Phase → Shared → Type 0
HasCancelled (finished e) w = w.cancelled ≡ true
HasCancelled _ w = Unit

-- What was received is what was sent, in one of two orders.
abbrev pub AreReceived : Phase → Phase → Shared → Type 0
AreReceived p q w = (w.received ≡ sent p ++ sent q) ⊎ (w.received ≡ sent q ++ sent p)

abbrev pub IsSound : State → Type 0
IsSound s =
    AreReceived s.control_api s.agent s.shared
    × HasCancelled s.control_api s.shared
    × HasCancelled s.agent s.shared

pub swap : (p q : Phase) (w : Shared) → AreReceived p q w → AreReceived q p w
swap p q w (inl h) = inr h
swap p q w (inr h) = inl h

Move-AreReceived :
    (q : Phase) {p p' : Phase} {w w' : Shared}
    → Move p w p' w'
    → AreReceived p q w
    → AreReceived p' q w'
Move-AreReceived q (returns e) h = h
Move-AreReceived q (sends e {w} room) h = inr (elim h [
  | inl k ↦ ap (λ z. z ++ (e ∷ [])) k
  | inr k ↦ ap (λ z. z ++ (e ∷ [])) (k ∙ append-nil (sent q))
])
Move-AreReceived q (cancels e) h = h

Move-HasCancelled :
    (q : Phase) {p p' : Phase} {w w' : Shared}
    → Move p w p' w'
    → HasCancelled q w
    → HasCancelled p' w' × HasCancelled q w'
Move-HasCancelled (finished x) (returns e) h = (tt, h)
Move-HasCancelled (finished x) (sends e room) h = (tt, h)
Move-HasCancelled (finished x) (cancels e) h = (refl, refl)
Move-HasCancelled serving (returns e) h = (tt, tt)
Move-HasCancelled serving (sends e room) h = (tt, tt)
Move-HasCancelled serving (cancels e) h = (refl, tt)
Move-HasCancelled (sending x) (returns e) h = (tt, tt)
Move-HasCancelled (sending x) (sends e room) h = (tt, tt)
Move-HasCancelled (sending x) (cancels e) h = (refl, tt)
Move-HasCancelled (deferred x) (returns e) h = (tt, tt)
Move-HasCancelled (deferred x) (sends e room) h = (tt, tt)
Move-HasCancelled (deferred x) (cancels e) h = (refl, tt)

Step-IsSound : {s t : State} → Step s t → IsSound s → IsSound t
Step-IsSound {s} (moves_control_api {p} {w} m) (all, c, a) =
    let (c', a') = Move-HasCancelled s.agent m a in (Move-AreReceived s.agent m all, c', a')
Step-IsSound {s} (moves_agent {p} {w} m) (all, c, a) =
    let (a', c') = Move-HasCancelled s.control_api m c in
    (
      swap p s.control_api w
          (Move-AreReceived s.control_api m (swap s.control_api s.agent s.shared all)),
      c',
      a',
    )
Step-IsSound {s} (signal set) (all, c, a) = (all, marked s.control_api, marked s.agent)
  where
    marked :
        (p : Phase) → HasCancelled p (record { cancelled = true; received = s.shared.received })
    marked serving = tt
    marked (sending e) = tt
    marked (deferred e) = tt
    marked (finished e) = refl

-- In every order of the steps, what `main` has received is what the goroutines have sent, in the order
-- of one or of the other, and a goroutine that has finished has cancelled the context.
pub Reach-IsSound : (n : ℕ) (s : State) → Reach n s → IsSound s
Reach-IsSound n s start = (inl refl, tt, tt)
Reach-IsSound n s (later r st) = Step-IsSound st (Reach-IsSound _ _ r)

-- How many steps a goroutine has left, and how many there are in all.
abbrev pub left : Phase → ℕ
left serving = 3
left (sending e) = 2
left (deferred e) = 1
left (finished e) = 0

abbrev pub bound : State → ℕ
bound s = left s.control_api + left s.agent + (if s.shared.cancelled then 0 else 1)

Move-bound :
    {p p' : Phase} {w w' : Shared}
    → Move p w p' w'
    → left p' + (if w'.cancelled then 0 else 1) < left p + (if w.cancelled then 0 else 1)
Move-bound (returns e {w}) = ground arith
Move-bound (sends e {w} room) = ground arith
Move-bound (cancels e {w}) = ground arith

pub Step-bound : {s t : State} → Step s t → bound t < bound s
Step-bound (moves_control_api m) = (let h = Move-bound m in omega arith)
Step-bound (moves_agent m) = (let h = Move-bound m in omega arith)
Step-bound (signal set) = ground arith

-- No order of the steps has more than seven of them.
pub Reach-bound : (n : ℕ) (s : State) → Reach n s → n + bound s ≤ 7
Reach-bound n s start = omega arith
Reach-bound n s (later r st) = (let ih = Reach-bound _ _ r in let h = Step-bound st in omega arith)
