-- ===== src/Skipper/UserInfo.antt =====
-- skipper/userinfo/userinfo.go: the cluster roles that are bound to a user.
use Prim.Native.String.{◌++◌ as str_append}
use appuio_cloud_agent.Base.{
  String, Bool, false, ◌&&◌, List, [], ◌∷◌, ◌++◌, ◌==◌, if◌then◌else◌, any,
}
use appuio_cloud_agent.Kube.{
  Result, ok, err, errorf, lit, cause, end, UserInfo, Subject, ClusterRoleBinding, Reader,
}

abbrev pub sa_prefix : String
sa_prefix = "system:serviceaccount:"

abbrev pub cluster_role_kind : String
cluster_role_kind = "ClusterRole"

-- saPrefix + namespace + ":" + name
abbrev pub service_account_name : Subject → String
service_account_name s = str_append (str_append (str_append sa_prefix s.namespace) ":") s.name

unfoldable pub match_subject : Subject → UserInfo → Bool
match_subject s u =
    if s.kind == "ServiceAccount"
    then u.username == service_account_name s
    else (if s.kind == "User"
        then u.username == s.name
        else (if s.kind == "Group" then any (λ g. s.name == g) u.groups else false))

-- The inner loop, over the subjects of one binding.
abbrev pub subject_roles : ClusterRoleBinding → UserInfo → List Subject → List String
subject_roles b u [] = []
subject_roles b u (s ∷ ss) =
    let rest = subject_roles b u ss in
    if b.role_kind == cluster_role_kind && match_subject s u then b.role_name ∷ rest else rest

unfoldable pub cluster_role_refs : List ClusterRoleBinding → UserInfo → List String
cluster_role_refs [] u = []
cluster_role_refs (b ∷ bs) u = subject_roles b u b.subjects ++ cluster_role_refs bs u

unfoldable pub cluster_role_refs_for_user : Reader → UserInfo → Result (List String)
cluster_role_refs_for_user cli u = elim cli.list_cluster_role_bindings [
  | ok crbs ↦ ok (cluster_role_refs crbs u)
  | err e ↦ err (errorf (lit "failed to list clusterrolebindings: " (cause e end)))
]
