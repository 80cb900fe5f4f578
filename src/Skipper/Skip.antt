-- ===== src/Skipper/Skip.antt =====
-- skipper/skipper.go: the interface, and the skippers that are built from others.
use appuio_cloud_agent.Base.{Bool, true, false, List, [], ◌∷◌, Option, none, some}
use appuio_cloud_agent.Kube.{Request, Error}

-- `Skip` returns a Boolean and an error, either of which may be set.
abbrev pub Skipper : Type 0
Skipper = Request → Bool × Option Error

unfoldable pub static_skip : Bool → Skipper
static_skip should_skip _ = (should_skip, none)

-- What one round of the loop does with the answer of a skipper: return it, or go on.
abbrev pub skip_or : Bool × Option Error → Bool × Option Error → Bool × Option Error
skip_or (skip, some e) rest = (skip, some e)
skip_or (true, none) rest = (true, none)
skip_or (false, none) rest = rest

unfoldable pub multi_skip : List Skipper → Skipper
multi_skip [] req = (false, none)
multi_skip (s ∷ ss) req = skip_or (s req) (multi_skip ss req)
