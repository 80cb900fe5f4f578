-- ===== src/Skipper/Privileged.antt =====
-- skipper/privileged_user.go. `wildcard.Match` is a library function: the first section parameter,
-- the pattern before the text.
use appuio_cloud_agent.Base.{String, Bool, true, false, List, none, some, if◌then◌else◌, any}
use appuio_cloud_agent.Kube.{ok, err, Reader}
use appuio_cloud_agent.Skipper.UserInfo.{cluster_role_refs_for_user}
use appuio_cloud_agent.Skipper.Skip.{Skipper}

pub record PrivilegedUserSkipper : Type 0 where
  pub client : Reader
  pub privileged_groups : List String
  pub privileged_users : List String
  pub privileged_cluster_roles : List String

module _ (match : String → String → Bool) where
  -- Two nested loops that return at the first pattern that matches one of the texts.
  abbrev pub match_any : List String → List String → Bool
  match_any patterns texts = any (λ p. any (match p) texts) patterns

  unfoldable pub privileged_skip : PrivilegedUserSkipper → Skipper
  privileged_skip s req =
      if any (λ pu. match pu req.user_info.username) s.privileged_users
      then (true, none)
      else (if match_any s.privileged_groups req.user_info.groups
          then (true, none)
          else elim (cluster_role_refs_for_user s.client req.user_info) [
            | err e ↦ (false, some e)
            | ok clusterroles ↦
                if match_any s.privileged_cluster_roles clusterroles
                then (true, none)
                else (false, none)
          ])
