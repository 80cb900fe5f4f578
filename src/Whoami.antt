-- ===== src/Whoami.antt =====
-- whoami/whoami.go: who the agent itself is, by a self subject review. The client for reviews is a
-- parameter.
use appuio_cloud_agent.Base.{String}
use appuio_cloud_agent.Kube.{wrapf, text, Result, ok, err, ◌>>=◌, UserInfo}

-- `Client` creates a review, and gives the user that is in its status.
pub record Whoami : Type 0 where
  pub client : Result UserInfo

abbrev wrapped {ℓ} : {A : Type ℓ} → String → Result A → Result A
wrapped message (ok a) = ok a
wrapped message (err e) = err (wrapf (text message) e)

unfoldable pub whoami_for_config_and_client : Result (Result UserInfo) → Result Whoami
whoami_for_config_and_client new_for_config_and_client =
    wrapped "error while creating self subject review client: " new_for_config_and_client
    >>= λ client. ok (record { client = client })

unfoldable pub whoami : Whoami → Result UserInfo
whoami s = wrapped "error while creating self subject review: " s.client
