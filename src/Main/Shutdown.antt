-- ===== src/Main/Shutdown.antt =====
-- main.go: the end of `main`, where two goroutines run the managers and `main` waits for both. A step is
-- one of a goroutine, or the signal that cancels the context; they are interleaved in any order. When a
-- manager's `Start` returns, and with which error, is not determined.
use appuio_cloud_agent.Base.{
  ℕ, ◌+◌, ◌<◌, Bool, true, false, List, [], ◌∷◌, ◌++◌, length, Option, none, some, ◌≡◌,
}
use appuio_cloud_agent.Kube.{Error, Multierr}

-- What a goroutine is about to do.
pub data Phase : Type 0 where
  -- `Start` has not returned
  serving : Phase
  -- send the result to the channel
  sending : Option Error → Phase
  -- the deferred `cancel`
  deferred : Option Error → Phase
  finished : Option Error → Phase

-- The context, and what `main` has received of the channel.
pub record Shared : Type 0 where
  pub cancelled : Bool
  pub received : List (Option Error)

pub record State : Type 0 where
  pub control_api : Phase
  pub agent : Phase
  pub shared : Shared

abbrev pub started : State
started = record {
  control_api = serving;
  agent = serving;
  shared = record { cancelled = false; received = [] };
}

-- The channel has no buffer: a result is sent when `main` receives it, which it does twice.
pub data Move : Phase → Shared → Phase → Shared → Type 0 where
  returns : (e : Option Error) {w : Shared} → Move serving w (sending e) w
  sends :
      (e : Option Error) {w : Shared}
      → length w.received < 2
      → Move (sending e) w (deferred e) (record w { received = w.received ++ (e ∷ []) })
  cancels :
      (e : Option Error) {w : Shared}
      → Move (deferred e) w (finished e) (record w { cancelled = true })

pub data Step (s : State) : State → Type 0 where
  moves_control_api :
      {p : Phase} {w : Shared}
      → Move s.control_api s.shared p w
      → Step s (record s { control_api = p; shared = w })
  moves_agent :
      {p : Phase} {w : Shared}
      → Move s.agent s.shared p w
      → Step s (record s { agent = p; shared = w })
  signal :
      s.shared.cancelled ≡ false
      → Step s (record s { shared = record { cancelled = true; received = s.shared.received } })

-- What can be reached in a number of steps.
pub data Reach : ℕ → State → Type 0 where
  start : Reach 0 started
  later : {n : ℕ} {s t : State} → Reach n s → Step s t → Reach (n + 1) t

abbrev pub errors : List (Option Error) → List Error
errors [] = []
errors (none ∷ rs) = errors rs
errors (some e ∷ rs) = e ∷ errors rs

abbrev pub code_of : Option Error → ℕ
code_of none = 0
code_of (some e) = 1

-- The exit code, once both results are received. `multierr.Combine` leaves nil errors out.
unfoldable pub exit_code : Multierr → List (Option Error) → Option ℕ
exit_code multierr [] = none
exit_code multierr (x ∷ []) = none
exit_code multierr (x ∷ y ∷ rs) = some (code_of (multierr.combine (errors (x ∷ y ∷ []))))
