-- ===== src/Main/Ending.antt =====
-- main.go: once a manager has returned or the context is cancelled, the program comes to its end.
use appuio_cloud_agent.Base.{ℕ, zero, suc, ◌+◌, ◌<◌, ◌≤◌, ◌⊎◌, ◌≡◌, inl, inr, arith}
use appuio_cloud_agent.Kube.{Multierr}
use appuio_cloud_agent.Main.Shutdown.{
  Phase, serving, Shared, State, Move, returns, sends, cancels, moves_control_api, moves_agent,
  Reach, later,
}
use appuio_cloud_agent.Main.Stopping.{bound, Step-bound, Reach-bound}
use appuio_cloud_agent.Main.Exit.{AreServing, IsDue, IsOver, CanMove, Reach-CanMove}

-- Steps that the goroutines take of themselves: a manager returns only once the context is cancelled.
pub data Course : State → State → Type 0 where
  here : (s : State) → Course s s
  control_api_due :
      {s t : State} {p : Phase} {w : Shared}
      → IsDue s.control_api s.shared
      → Move s.control_api s.shared p w
      → Course (record s { control_api = p; shared = w }) t
      → Course s t
  agent_due :
      {s t : State} {p : Phase} {w : Shared}
      → IsDue s.agent s.shared
      → Move s.agent s.shared p w
      → Course (record s { agent = p; shared = w }) t
      → Course s t

Move-serving : {p p' : Phase} {w w' : Shared} → Move p w p' w' → ¬ (p' ≡ serving)
Move-serving (returns e) h = absurd (cc)
Move-serving (sends e room) h = absurd (cc)
Move-serving (cancels e) h = absurd (cc)

abbrev Ends : Multierr → State → Type 0
Ends multierr s = (t : State) × Course s t × IsOver multierr t.shared

ends :
    (multierr : Multierr) (k n : ℕ) (s : State)
    → bound s < k
    → Reach n s
    → ¬ AreServing s.control_api s.agent s.shared
    → Ends multierr s
ends multierr zero n s less r not_serving = absurd (omega arith)
ends multierr (suc k) n s less r not_serving = elim (Reach-CanMove multierr n s r) [
  | inl are ↦ absurd (not_serving are)
  | inr (inl over) ↦ (s, here s, over)
  | inr (inr (inl (p, w, due, m))) ↦
      (let st = moves_control_api m in
        let lower = Step-bound st in
        let (t, course, over) =
          ends multierr k (n + 1) (record s { control_api = p; shared = w }) (omega arith)
            (later r st) (λ are. Move-serving m are.0) in
        (t, control_api_due due m course, over))
  | inr (inr (inr (p, w, due, m))) ↦
      (let st = moves_agent m in
        let lower = Step-bound st in
        let (t, course, over) =
          ends multierr k (n + 1) (record s { agent = p; shared = w }) (omega arith) (later r st)
            (λ are. Move-serving m are.1) in
        (t, agent_due due m course, over))
]

-- From every state that is reached in some order of the steps, unless both managers serve and the
-- context is not cancelled, the goroutines come to a state in which `main` has an exit code by steps of
-- their own: they send, they cancel, and a manager returns when the context is cancelled.
pub Reach-Course :
    (multierr : Multierr) (n : ℕ) (s : State)
    → Reach n s
    → ¬ AreServing s.control_api s.agent s.shared
    → (t : State) × Course s t × IsOver multierr t.shared
Reach-Course multierr n s r not_serving =
    ends multierr (bound s + 1) n s (omega arith) r not_serving

abbrev pub steps : {s t : State} → Course s t → ℕ
steps (here s) = 0
steps (control_api_due due m rest) = suc (steps rest)
steps (agent_due due m rest) = suc (steps rest)

steps-bound : {s t : State} (c : Course s t) → steps c + bound t ≤ bound s
steps-bound (here s) = omega arith
steps-bound (control_api_due {s} {t} {p} {w} due m rest) =
    let lower : bound (record s { control_api = p; shared = w }) < bound s =
      Step-bound (moves_control_api m) in
    let ih = steps-bound rest in omega arith
steps-bound (agent_due {s} {t} {p} {w} due m rest) =
    let lower : bound (record s { agent = p; shared = w }) < bound s = Step-bound (moves_agent m) in
    let ih = steps-bound rest in omega arith

Course-serving :
    {s t : State}
    → Course s t
    → ¬ AreServing s.control_api s.agent s.shared
    → ¬ AreServing t.control_api t.agent t.shared
Course-serving (here s) h = h
Course-serving (control_api_due due m rest) h = Course-serving rest (λ are. Move-serving m are.0)
Course-serving (agent_due due m rest) h = Course-serving rest (λ are. Move-serving m are.1)

Course-Reach : {s t : State} (n : ℕ) → Course s t → Reach n s → (m : ℕ) × Reach m t
Course-Reach n (here s) r = (n, r)
Course-Reach n (control_api_due due m rest) r =
    Course-Reach (n + 1) rest (later r (moves_control_api m))
Course-Reach n (agent_due due m rest) r = Course-Reach (n + 1) rest (later r (moves_agent m))

-- From every state that is reached in some order of the steps, unless both managers serve and the
-- context is not cancelled, every course of the goroutines' own steps is finite and does not get stuck:
-- with the steps before there are at most seven, and where it has come to, either `main` has an exit
-- code or a goroutine can take another step of its own. So each course that is taken as far as it goes
-- ends with an exit code.
pub Course-IsOver :
    (multierr : Multierr) (n : ℕ) (s t : State) (c : Course s t)
    → Reach n s
    → ¬ AreServing s.control_api s.agent s.shared
    → (n + steps c ≤ 7)
      × (IsOver multierr t.shared ⊎ (CanMove t.control_api t.shared ⊎ CanMove t.agent t.shared))
Course-IsOver multierr n s t c r not_serving =
    let before = Reach-bound n s r in
    let taken = steps-bound c in
    let (m, reached) = Course-Reach n c r in
    (
      omega arith,
      elim (Reach-CanMove multierr m t reached) [
        | inl are ↦ absurd (Course-serving c not_serving are)
        | inr goes ↦ goes
      ],
    )
