-- ===== src/Skipper/Tests.antt =====
-- Runs of the skippers, and the theorems at concrete users.
use appuio_cloud_agent.Base.{
  String, Bool, true, false, ◌≡◌, refl, ◌↔◌, ◌⊎◌, List, [], ◌∷◌, none, ◌==◌,
}
use appuio_cloud_agent.Kube.{external, Result, ok, err, Request, ClusterRoleBinding, Reader}
use appuio_cloud_agent.Skipper.Skip.{Skipper, static_skip}
use appuio_cloud_agent.Skipper.UserInfo.{
  match_subject, cluster_role_refs, cluster_role_refs_for_user,
}
use appuio_cloud_agent.Skipper.Privileged.{PrivilegedUserSkipper, privileged_skip}
use appuio_cloud_agent.Skipper.Laws.{IsNamed, HasRole, privileged_skip_iff}

abbrev request : String → Request
request name = record {
  user_info = record { username = name; groups = "developers" ∷ [] };
  group = "";
  kind = "Namespace";
  namespace = "";
  name = "team";
  operation = "CREATE";
  object = "{}";
  old_object = "";
}

abbrev binding : ClusterRoleBinding
binding = record {
  role_kind = "ClusterRole";
  role_name = "cluster-image-registry-operator";
  subjects = record { kind = "ServiceAccount"; namespace = "registry"; name = "operator" } ∷ [];
}

abbrev reader : Result (List ClusterRoleBinding) → Reader
reader crbs = record {
  get_namespace = λ _. err (external "");
  get_user = λ _. err (external "");
  get_group = λ _. err (external "");
  get_config_map = λ _ _. err (external "");
  get_zone_usage_profile = λ _. err (external "");
  list_namespaces = λ _ _. err (external "");
  list_cluster_role_bindings = crbs;
}

abbrev skipper : Result (List ClusterRoleBinding) → PrivilegedUserSkipper
skipper crbs = record {
  client = reader crbs;
  privileged_groups = "admins" ∷ [];
  privileged_users = "chucktesta" ∷ [];
  privileged_cluster_roles = "cluster-image-registry-operator" ∷ [];
}

-- In place of `wildcard.Match`: no wildcards.
abbrev exact : String → String → Bool
exact pattern s = pattern == s

abbrev operator : String
operator = "system:serviceaccount:registry:operator"

skip_operator :
    privileged_skip exact (skipper (ok (binding ∷ []))) (request operator) ≡ (true, none)
unfolding privileged_skip cluster_role_refs_for_user cluster_role_refs match_subject
skip_operator = refl

check_other : privileged_skip exact (skipper (ok (binding ∷ []))) (request "jane") ≡ (false, none)
unfolding privileged_skip cluster_role_refs_for_user cluster_role_refs match_subject
check_other = refl

abbrev chain : List Skipper
chain = static_skip false ∷ privileged_skip exact (skipper (ok (binding ∷ []))) ∷ []

privileged_skip_iff_example :
    ((privileged_skip exact (skipper (ok (binding ∷ []))) (request operator) ≡ (true, none)) ↔ (
      IsNamed exact (skipper (ok (binding ∷ []))) (request operator).user_info
      ⊎ HasRole exact (skipper (ok (binding ∷ []))) (request operator).user_info (binding ∷ [])))
    × ((privileged_skip exact (skipper (ok (binding ∷ []))) (request operator)).1 ≡ none)
privileged_skip_iff_example =
    privileged_skip_iff exact (skipper (ok (binding ∷ []))) (request operator) (binding ∷ []) refl

abbrev failing : PrivilegedUserSkipper
failing = skipper (err (external "timeout"))
