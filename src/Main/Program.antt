-- ===== src/Main/Program.antt =====
-- main.go: what the manager holds, and the steps that fill it. Each part of `main` that registers
-- handlers or sets controllers up is a list of steps, which are done in their order.
use appuio_cloud_agent.Base.{String, Bool, List, [], ◌∷◌, ◌++◌, Dict, if◌then◌else◌}
use appuio_cloud_agent.Main.Environment.{Libraries, Manager, Controller, Handler, Environment}
use appuio_cloud_agent.Main.Run.{Run, running, ◌>>=◌, ◌>>◌, check}

module _ {S X L : Type 0} (lib : Libraries S) (env : Environment S lib.decimal.D X L)
    (mgr : Manager lib.decimal.D) where
  open lib use {decimal}

  -- What the manager holds: the handlers of the webhook server, and the controllers.
  pub record Agent : Type 0 where
    pub handlers : Dict Handler
    pub controllers : List (Controller S decimal.D X L)

  abbrev pub new_agent : Agent
  new_agent = record { handlers = []; controllers = [] }

  pub data Step : Type 0 where
    register : String → Handler → Step
    set_up : String → Controller S decimal.D X L → Step

  unfoldable pub do_step : Step → Agent → Run Agent
  do_step (register path h) a = running (record a { handlers = a.handlers ++ ((path, h) ∷ []) })
  do_step (set_up name c) a =
      check "unable to create controller" name (env.set_up c)
      >> running (record a { controllers = a.controllers ++ (c ∷ []) })

  unfoldable pub run : List Step → Agent → Run Agent
  run [] a = running a
  run (s ∷ ss) a = do_step s a >>= λ a'. run ss a'

  abbrev pub when : Bool → List Step → List Step
  when b ss = if b then ss else []
