-- ===== src/Skipper/Laws.antt =====
-- Who is skipped.

use mathlib.Core.Bool.{and-eq-true_iff}
use appuio_cloud_agent.Base.{
  String, Bool, true, false, ◌≡◌, ◌↔◌, ◌⊎◌, inl, inr, List, [], ◌∷◌, Option, none, some, arith,
  ◌==◌, ◌&&◌, eq_iff, String-cases, Bool-cases, any, any_iff, Any, All, In, Any-map, Any-append_iff,
}
use appuio_cloud_agent.Kube.{
  ok, err, errorf, lit, cause, end, Error, UserInfo, Subject, ClusterRoleBinding, Request,
}
use appuio_cloud_agent.Skipper.UserInfo.{
  service_account_name, cluster_role_kind, match_subject, subject_roles, cluster_role_refs,
  cluster_role_refs_for_user,
}
use appuio_cloud_agent.Skipper.Skip.{Skipper, multi_skip, skip_or}
use appuio_cloud_agent.Skipper.Privileged.{PrivilegedUserSkipper, match_any, privileged_skip}

skip_or-checked_iff :
    (r rest : Bool × Option Error)
    → (skip_or r rest ≡ (false, none)) ↔ ((r ≡ (false, none)) × (rest ≡ (false, none)))
skip_or-checked_iff (skip, some e) rest = ground arith
skip_or-checked_iff (true, none) rest = ground arith
skip_or-checked_iff (false, none) rest = ground arith

-- A chain of skippers lets a request be checked exactly when every skipper of it asks for the
-- check without an error.
pub multi_skip-checked_iff :
    (ss : List Skipper) (req : Request)
    → (multi_skip ss req ≡ (false, none)) ↔ All (λ s. s req ≡ (false, none)) ss
unfolding multi_skip
multi_skip-checked_iff [] req = ground arith
multi_skip-checked_iff (s ∷ ss) req =
    let (to, from) = skip_or-checked_iff (s req) (multi_skip ss req) in
    let (to', from') = multi_skip-checked_iff ss req in
    (λ h. ((to h).0, to' (to h).1), λ h. from (h.0, from' h.1))

-- The subject of a binding stands for the user: by the name of a service account, by the user's
-- name or by one of the user's groups.
pub data Refers (s : Subject) (u : UserInfo) : Type 0 where
  service_account : s.kind ≡ "ServiceAccount" → u.username ≡ service_account_name s → Refers s u
  user : s.kind ≡ "User" → u.username ≡ s.name → Refers s u
  group : s.kind ≡ "Group" → In s.name u.groups → Refers s u

any-eq_iff : (k : String) (xs : List String) → (any (λ g. k == g) xs ≡ true) ↔ In k xs
any-eq_iff k [] = ground arith
any-eq_iff k (x ∷ xs) = ground (arith, eq_iff k x, any-eq_iff k xs)

match_subject-Refers : (s : Subject) (u : UserInfo) → match_subject s u ≡ true → Refers s u
unfolding match_subject
match_subject-Refers s u h = elim (String-cases s.kind "ServiceAccount") [
  | inl sa ↦
      service_account sa
        (ground (arith, eq_iff s.kind "ServiceAccount", eq_iff u.username (service_account_name s)))
  | inr not_sa ↦ elim (String-cases s.kind "User") [
    | inl us ↦ user us (ground (arith, eq_iff s.kind "User", eq_iff u.username s.name))
    | inr not_us ↦ elim (String-cases s.kind "Group") [
      | inl gr ↦ group gr ((any-eq_iff _ _).0 (ground (arith, eq_iff s.kind "Group")))
      | inr not_gr ↦ absurd (ground arith)
    ]
  ]
]

Refers-match_subject : (s : Subject) (u : UserInfo) → Refers s u → match_subject s u ≡ true
unfolding match_subject
Refers-match_subject s u (service_account k n) = simp k ((eq_iff _ _).1 n)
Refers-match_subject s u (user k n) = simp k ((eq_iff _ _).1 n)
Refers-match_subject s u (group k n) = simp k ((any-eq_iff _ _).1 n)

match_subject_iff : (s : Subject) (u : UserInfo) → (match_subject s u ≡ true) ↔ Refers s u
match_subject_iff s u = (match_subject-Refers s u, Refers-match_subject s u)

-- The binding binds a cluster role, and one of its subjects stands for the user.
abbrev pub Binds : ClusterRoleBinding → UserInfo → Type 0
Binds b u = (b.role_kind ≡ cluster_role_kind) × Any (λ s. Refers s u) b.subjects

bound :
    (b : ClusterRoleBinding) (u : UserInfo) (s : Subject)
    → (b.role_kind == cluster_role_kind && match_subject s u ≡ true)
      ↔ ((b.role_kind ≡ cluster_role_kind) × Refers s u)
bound b u s =
    let (to, from) = and-eq-true_iff (b.role_kind == cluster_role_kind) (match_subject s u) in
    (
      λ h. ((eq_iff _ _).0 (to h).0, (match_subject_iff s u).0 (to h).1),
      λ h. from ((eq_iff _ _).1 h.0, (match_subject_iff s u).1 h.1),
    )

module _ (P : String → Type 0) (u : UserInfo) where
  subject_roles-Any :
      (b : ClusterRoleBinding) (ss : List Subject)
      → Any P (subject_roles b u ss)
      → (b.role_kind ≡ cluster_role_kind) × Any (λ s. Refers s u) ss × P b.role_name
  subject_roles-Any b [] h = absurd h
  subject_roles-Any b (s ∷ ss) h =
      elim (Bool-cases (b.role_kind == cluster_role_kind && match_subject s u)) [
        | inl fits ↦ elim (simp fits at h) [
          | inl q ↦ let (k, r) = (bound b u s).0 fits in (k, inl r, q)
          | inr later ↦ let (k, r, q) = subject_roles-Any b ss later in (k, inr r, q)
        ]
        | inr other ↦ let (k, r, q) = subject_roles-Any b ss (simp other at h) in (k, inr r, q)
      ]

  Any-subject_roles :
      (b : ClusterRoleBinding) (ss : List Subject)
      → b.role_kind ≡ cluster_role_kind
      → Any (λ s. Refers s u) ss
      → P b.role_name
      → Any P (subject_roles b u ss)
  Any-subject_roles b [] k r q = absurd r
  Any-subject_roles b (s ∷ ss) k (inl r) q = simp ((bound b u s).1 (k, r)) (inl q)
  Any-subject_roles b (s ∷ ss) k (inr r) q =
      let later : Any P (subject_roles b u ss) = Any-subject_roles b ss k r q in
      elim (Bool-cases (b.role_kind == cluster_role_kind && match_subject s u)) [
        | inl fits ↦ simp fits (inr later)
        | inr other ↦ simp other later
      ]

  cluster_role_refs-Any_iff :
      (bs : List ClusterRoleBinding)
      → Any P (cluster_role_refs bs u) ↔ Any (λ b. Binds b u × P b.role_name) bs
  unfolding cluster_role_refs
  cluster_role_refs-Any_iff [] = (λ h. h, λ h. h)
  cluster_role_refs-Any_iff (b ∷ bs) =
      let (split, join) =
        Any-append_iff P (subject_roles b u b.subjects) (cluster_role_refs bs u) in
      let (to, from) = cluster_role_refs-Any_iff bs in
      (
        λ h. elim (split h) [
          | inl here ↦ let (k, r, q) = subject_roles-Any b b.subjects here in inl ((k, r), q)
          | inr later ↦ inr (to later)
        ],
        λ h. elim h [
          | inl ((k, r), q) ↦ join (inl (Any-subject_roles b b.subjects k r q))
          | inr later ↦ join (inr (from later))
        ],
      )

module _ (match : String → String → Bool) where
  match_any_iff :
      (patterns texts : List String)
      → (match_any match patterns texts ≡ true)
        ↔ Any (λ p. Any (λ t. match p t ≡ true) texts) patterns
  match_any_iff [] texts = ground arith
  match_any_iff (p ∷ patterns) texts =
      ground (arith, any_iff (match p) texts, match_any_iff patterns texts)

  -- The user, or one of the user's groups, matches a configured pattern.
  abbrev pub IsNamed : PrivilegedUserSkipper → UserInfo → Type 0
  IsNamed s u =
      Any (λ p. match p u.username ≡ true) s.privileged_users
      ⊎ Any (λ p. Any (λ g. match p g ≡ true) u.groups) s.privileged_groups

  -- A cluster role that matches a configured pattern is bound to the user by a cluster role
  -- binding.
  abbrev pub HasRole : PrivilegedUserSkipper → UserInfo → List ClusterRoleBinding → Type 0
  HasRole s u crbs =
      Any (λ p. Any (λ b. Binds b u × (match p b.role_name ≡ true)) crbs) s.privileged_cluster_roles

  HasRole-iff :
      (s : PrivilegedUserSkipper) (u : UserInfo) (crbs : List ClusterRoleBinding)
      → (match_any match s.privileged_cluster_roles (cluster_role_refs crbs u) ≡ true)
        ↔ HasRole s u crbs
  HasRole-iff s u crbs =
      let (to, from) = match_any_iff s.privileged_cluster_roles (cluster_role_refs crbs u) in
      (
        λ h. Any-map (λ p. (cluster_role_refs-Any_iff (λ r. match p r ≡ true) u crbs).0) _ (to h),
        λ h. from (Any-map (λ p. (cluster_role_refs-Any_iff (λ r. match p r ≡ true) u crbs).1) _ h),
      )

  -- When the cluster role bindings can be listed, exactly the requests of users who match by
  -- name, by group or by a cluster role bound to them through a cluster role binding are skipped,
  -- and no error is returned.
  pub privileged_skip_iff :
      (s : PrivilegedUserSkipper) (req : Request) (crbs : List ClusterRoleBinding)
      → s.client.list_cluster_role_bindings ≡ ok crbs
      → ((privileged_skip match s req ≡ (true, none))
          ↔ (IsNamed s req.user_info ⊎ HasRole s req.user_info crbs))
        × ((privileged_skip match s req).1 ≡ none)
  unfolding privileged_skip cluster_role_refs_for_user
  privileged_skip_iff s req crbs listed = ground (
    arith,
    any_iff (λ pu. match pu req.user_info.username) s.privileged_users,
    match_any_iff s.privileged_groups req.user_info.groups,
    HasRole-iff s req.user_info crbs,
  )

  -- When they cannot be listed, a user who matches by name or by group is skipped all the same;
  -- for any other user the request is not skipped, and the error is returned.
  pub privileged_skip_unlisted :
      (s : PrivilegedUserSkipper) (req : Request) (e : Error)
      → s.client.list_cluster_role_bindings ≡ err e
      → (IsNamed s req.user_info × (privileged_skip match s req ≡ (true, none)))
        ⊎ ((¬ IsNamed s req.user_info)
            × (privileged_skip match s req ≡ (
              false,
              some (errorf (lit "failed to list clusterrolebindings: " (cause e end))),
            )))
  unfolding privileged_skip cluster_role_refs_for_user
  privileged_skip_unlisted s req e unlisted = ground (
    arith,
    any_iff (λ pu. match pu req.user_info.username) s.privileged_users,
    match_any_iff s.privileged_groups req.user_info.groups,
  )
