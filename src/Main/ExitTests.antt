-- ===== src/Main/ExitTests.antt =====
-- The theorems on the end of `main` at a run in which a manager fails.
use appuio_cloud_agent.Base.{◌⊎◌, true, ◌≡◌, refl, [], ◌∷◌, Option, none, some, ◌≤◌, ◌+◌, arith}
use appuio_cloud_agent.Kube.{first_only, Error, external}
use appuio_cloud_agent.Main.Shutdown.{
  State, deferred, finished, returns, sends, cancels, moves_control_api, moves_agent, Reach, start,
  later, exit_code,
}
use appuio_cloud_agent.Main.Stopping.{sent, IsSound, Reach-IsSound}
use appuio_cloud_agent.Main.Ending.{Course, here, control_api_due, Reach-Course, Course-IsOver}
use appuio_cloud_agent.Main.Exit.{CanMove, AreServing, IsOver, Tells, Reach-exit_code}

-- The agent's manager fails, and the other one stops since its context is cancelled.
abbrev broken : Option Error
broken = some (external "port in use")

abbrev stopped : State
stopped = record {
  control_api = deferred none;
  agent = finished broken;
  shared = record { cancelled = true; received = broken ∷ none ∷ [] };
}

stopped_reached : Reach 5 stopped
stopped_reached =
    later
      (later
        (later
          (later (later start (moves_agent (returns broken)))
            (moves_agent (sends broken (ground arith))))
          (moves_agent (cancels broken)))
        (moves_control_api (returns none)))
      (moves_control_api (sends none (ground arith)))

Reach-IsSound_example : IsSound stopped
Reach-IsSound_example = Reach-IsSound 5 stopped stopped_reached

not_serving : ¬ AreServing stopped.control_api stopped.agent stopped.shared
not_serving h = absurd (cc)

-- The last step, in which the other goroutine cancels.
abbrev last : Course stopped (record stopped { control_api = finished none })
last = control_api_due tt (cancels none) (here (record stopped { control_api = finished none }))

Course-IsOver_example :
    (5 + 1 ≤ 7)
    × (IsOver first_only stopped.shared
        ⊎ (CanMove (finished none) stopped.shared ⊎ CanMove (finished broken) stopped.shared))
Course-IsOver_example =
    Course-IsOver first_only 5 stopped (record stopped { control_api = finished none }) last
      stopped_reached not_serving

Reach-Course_example : (t : State) × Course stopped t × IsOver first_only t.shared
Reach-Course_example = Reach-Course first_only 5 stopped stopped_reached not_serving

failed_code : exit_code first_only stopped.shared.received ≡ some 1
unfolding exit_code
failed_code = refl

Reach-exit_code_example :
    (x : Option Error) × (y : Option Error) × (sent (deferred none) ≡ x ∷ [])
    × (sent (finished broken) ≡ y ∷ [])
    × Tells 1 x y
Reach-exit_code_example = Reach-exit_code first_only 5 stopped 1 stopped_reached failed_code
