-- ===== src/Controllers/OrganizationRbac/Laws.antt =====
-- controllers/org_rbac_controller.go: which role bindings there are after a reconciliation.
use mathlib.Core.Path.{subst, sym}
use appuio_cloud_agent.Base.{
  String, Bool-cases, String-cases, true, false, ◌≡◌, ◌≢◌, refl, ap, ◌∙◌, ◌⊎◌, inl, inr, List, [],
  ◌∷◌, Option, none, some, Dict, lookup, IsMap, ◌==◌, eq_iff, arith, erase, Bool, index, is_true,
  parse_bool,
}
use appuio_cloud_agent.Kube.{or_given, Error, ok, Result-cases, Namespace, Multierr, Subject}
use appuio_cloud_agent.Controllers.OrganizationRbac.{
  RoleBinding, Controllerutil, rolebinding_is_uninitialized, fresh, initialized, put_role_binding,
  Progress, with_error, put_all, OrganizationRbacReconciler, reconcile, combined, get_organization,
  skip_rbac_management,
}

-- The group of the organization.
abbrev pub the_group : String → Subject
the_group org = record { kind = "Group"; namespace = ""; name = org }

abbrev pub is_marked : RoleBinding → Bool
is_marked rb = is_true (parse_bool (index "appuio.io/uninitialized" rb.labels))

-- The binding is initialized: if the one before it was marked as uninitialized, it has the group as its
-- only subject, and the mark is deleted; otherwise it keeps its subjects and its labels. It keeps
-- the cluster role.
abbrev pub IsInitialized : String → RoleBinding → RoleBinding → Type 0
IsInitialized org current new =
    (new.role_ref ≡ current.role_ref)
    × (((is_marked current ≡ true)
          × (new.subjects ≡ the_group org ∷ [])
          × (new.labels ≡ erase "appuio.io/uninitialized" current.labels))
        ⊎ ((is_marked current ≡ false)
            × (new.subjects ≡ current.subjects)
            × (new.labels ≡ current.labels)))

-- A new binding has the given cluster role, the group as its only subject, and no mark.
abbrev pub IsNew : String → String → RoleBinding → Type 0
IsNew org cluster_role new =
    (new.role_ref ≡ cluster_role) × (new.subjects ≡ the_group org ∷ []) × (new.labels ≡ [])

fresh-IsNew :
    (org name cluster_role : String) (new : RoleBinding)
    → IsInitialized org (fresh name cluster_role) new
    → IsNew org cluster_role new
unfolding parse_bool
fresh-IsNew org name cluster_role new (role, inl (marked, subject, label)) = (role, subject, label)
fresh-IsNew org name cluster_role new (role, inr (unmarked, kept, label)) = absurd (ground arith)

initialized-IsInitialized :
    (group : String) (current : RoleBinding)
    → IsInitialized group current (initialized group current)
initialized-IsInitialized group current = elim (Bool-cases (rolebinding_is_uninitialized current)) [
  | inl raw ↦ rw raw (refl, inl (refl, refl, refl))
  | inr done ↦ rw done (refl, inr (refl, refl, refl))
]

module _ (util : Controllerutil) (ns : Namespace) (org : String) where
  open util use {Store, get, create_or_update, set_controller_reference}

  -- The binding of this name is there: initialized from the one of the store before, or new.
  abbrev pub IsPut : String → String → Store → Store → Type 0
  IsPut k cr before after =
      (new : RoleBinding) × (get k after ≡ some new)
      × (((get k before ≡ none) × IsNew org cr new)
          ⊎ ((old : RoleBinding) × (get k before ≡ some old) × IsInitialized org old new))

  from_given :
      (k cr : String) (o : Option RoleBinding) (new : RoleBinding)
      → IsInitialized org (or_given (fresh k cr) o) new
      → ((o ≡ none) × IsNew org cr new)
        ⊎ ((old : RoleBinding) × (o ≡ some old) × IsInitialized org old new)
  from_given k cr none new h = inl (refl, fresh-IsNew org k cr new h)
  from_given k cr (some old) new h = inr (old, refl, h)

  put_role_binding-IsPut :
      (k cr : String) (s : Store)
      → (put_role_binding util ns k cr org s).1 ≡ none
      → IsPut k cr s (put_role_binding util ns k cr org s).0
  unfolding put_role_binding
  put_role_binding-IsPut k cr s fine =
      let current = or_given (fresh k cr) (get k s) in
      let (new, made, there) =
        util.create_or_update-get (fresh k cr)
          (λ rb. set_controller_reference ns (initialized org rb)) s fine in
      let (labels, subjects, role) =
        util.set_controller_reference-rest ns (initialized org current) new made in
      let (same_role, rest) = initialized-IsInitialized org current in
      (
        new,
        there,
        from_given k cr (get k s) new (
          role ∙ same_role,
          elim rest [
            | inl (raw, subject, label) ↦ inl (raw, subjects ∙ subject, labels ∙ label)
            | inr (done, kept, label) ↦ inr (done, subjects ∙ kept, labels ∙ label)
          ],
        ),
      )

  with_error-store :
      (k : String) (e : Option Error) (p : Progress util) → (with_error util k e p).store ≡ p.store
  with_error-store k none p = refl
  with_error-store k (some e) p = refl

  with_error-nil :
      (k : String) (e : Option Error) (p : Progress util)
      → (with_error util k e p).errs ≡ []
      → (e ≡ none) × (p.errs ≡ [])
  with_error-nil k none p h = (refl, h)
  with_error-nil k (some e) p h = absurd (ground arith)

  put_role_binding-get_ne :
      (j cr : String) (s : Store) (k : String)
      → (j == k) ≡ false
      → get k (put_role_binding util ns j cr org s).0 ≡ get k s
  unfolding put_role_binding
  put_role_binding-get_ne j cr s k other =
      util.create_or_update-get_ne (fresh j cr) _ s k (λ same. absurd (ground (arith, eq_iff j k)))

  -- Role bindings of other names are left alone, with or without errors.
  put_all-get_ne :
      (k : String) (roles : Dict String) (s : Store)
      → lookup k roles ≡ none
      → get k (put_all util ns org roles s).store ≡ get k s
  unfolding put_all
  put_all-get_ne k [] s h = refl
  put_all-get_ne k ((j, cr) ∷ roles) s h = elim (Bool-cases (j == k)) [
    | inl same ↦ absurd (ground arith)
    | inr other ↦
        let put = put_role_binding util ns j cr org s in
        ap (get k) (with_error-store j put.1 (put_all util ns org roles put.0))
        ∙ put_all-get_ne k roles put.0 (ground arith)
        ∙ put_role_binding-get_ne j cr s k other
  ]

  IsPut-before :
      (k cr : String) (s t after : Store)
      → get k t ≡ get k s
      → IsPut k cr t after
      → IsPut k cr s after
  IsPut-before k cr s t after same (new, there, made) = (
    new,
    there,
    subst
        (λ o.
          ((o ≡ none) × IsNew org cr new)
          ⊎ ((old : RoleBinding) × (o ≡ some old) × IsInitialized org old new))
        same made,
  )

  IsPut-after :
      (k cr : String) (s t after : Store)
      → get k after ≡ get k t
      → IsPut k cr s t
      → IsPut k cr s after
  IsPut-after k cr s t after same (new, there, made) = (new, same ∙ there, made)

  put_all-IsPut :
      (roles : Dict String) (s : Store)
      → IsMap roles
      → (put_all util ns org roles s).errs ≡ []
      → (k cr : String) → lookup k roles ≡ some cr
      → IsPut k cr s (put_all util ns org roles s).store
  unfolding put_all
  put_all-IsPut [] s map fine k cr h = absurd (ground arith)
  put_all-IsPut ((j, c) ∷ roles) s map fine k cr h =
      let put = put_role_binding util ns j c org s in
      let rest = put_all util ns org roles put.0 in
      let (put_fine, rest_fine) = with_error-nil j put.1 rest fine in
      let same_store = ap (get k) (with_error-store j put.1 rest) in
      elim (Bool-cases (j == k)) [
        | inl same ↦
            let names : j ≡ k = (eq_iff j k).0 same in
            let role : c ≡ cr = ground arith in
            let head = put_role_binding-IsPut j c s put_fine in
            let kept = put_all-get_ne j roles put.0 map.0 in
            subst (λ x. IsPut x cr s (with_error util j put.1 rest).store) names
              (subst (λ x. IsPut j x s (with_error util j put.1 rest).store) role
                (IsPut-after j c s put.0 _ (ap (get j) (with_error-store j put.1 rest) ∙ kept)
                  head))
        | inr other ↦
            let later = put_all-IsPut roles put.0 map.1 rest_fine k cr (ground arith) in
            IsPut-after k cr s rest.store _ same_store
              (IsPut-before k cr s put.0 rest.store (put_role_binding-get_ne j c s k other) later)
      ]

combine-nil_only : (multierr : Multierr) (es : List Error) → multierr.combine es ≡ none → es ≡ []
combine-nil_only multierr [] h = refl
combine-nil_only multierr (e ∷ es) h = absurd (multierr.combine-cons e es h)

module _ (util : Controllerutil) (multierr : Multierr) (r : OrganizationRbacReconciler util) where
  open util use {Store, get}

  -- The namespace is one of an organization, and its role bindings are to be managed.
  abbrev pub IsManaged : Namespace → Type 0
  IsManaged ns =
      (ns.deleting ≡ false)
      × (get_organization util multierr r ns ≢ "")
      × (skip_rbac_management util ns ≡ false)

  reconcile-managed :
      (name : String) (ns : Namespace) (s : Store)
      → r.get_namespace name ≡ ok ns
      → IsManaged ns
      → reconcile util multierr r name s
        ≡ combined util multierr r
            (put_all util ns (get_organization util multierr r ns) r.default_cluster_roles s)
  unfolding reconcile
  reconcile-managed name ns s read (alive, org, kept) =
      elim (String-cases (get_organization util multierr r ns) "") [
        | inl bare ↦ absurd (org bare)
        | inr set ↦ rw (read, alive, set, kept) refl
      ]

  -- When a reconciliation of a managed namespace, with a map as the default cluster roles, returns no
  -- error, every default role binding is there: a new one with its cluster role, the organization's
  -- group as its only subject and no labels; one that was marked as uninitialized with the group as its
  -- only subject and without the mark; and any other with the subjects and labels that it had.
  pub reconcile-IsPut :
      (name : String) (ns : Namespace) (s : Store)
      → r.get_namespace name ≡ ok ns
      → IsManaged ns
      → IsMap r.default_cluster_roles
      → (reconcile util multierr r name s).error ≡ none
      → (k cr : String) → lookup k r.default_cluster_roles ≡ some cr
      → IsPut util ns
          (get_organization util multierr r ns)
          k
          cr
          s
          (reconcile util multierr r name s).store
  reconcile-IsPut name ns s read managed map fine k cr h =
      let org = get_organization util multierr r ns in
      let all = put_all util ns org r.default_cluster_roles s in
      let same = reconcile-managed name ns s read managed in
      subst (λ o. IsPut util ns org k cr s o.store) (sym same)
        (put_all-IsPut util ns org r.default_cluster_roles s map
          (combine-nil_only multierr all.errs (ap (λ o. o.error) (sym same) ∙ fine)) k cr h)

  -- A role binding that is no default one is never changed by a reconciliation, whether or not it
  -- returns an error.
  pub reconcile-get_ne :
      (name : String) (s : Store) (k : String)
      → lookup k r.default_cluster_roles ≡ none
      → get k (reconcile util multierr r name s).store ≡ get k s
  unfolding reconcile
  reconcile-get_ne name s k h = elim (Result-cases (r.get_namespace name)) [
    | inr (e, failed) ↦ rw failed refl
    | inl (ns, read) ↦
        let org = get_organization util multierr r ns in
        elim (Bool-cases ns.deleting) [
          | inl gone ↦ rw (read, gone) refl
          | inr alive ↦ elim (Bool-cases (org == "")) [
            | inl bare ↦ rw (read, alive, bare) refl
            | inr set ↦ elim (Bool-cases (skip_rbac_management util ns)) [
              | inl skipped ↦ rw (read, alive, set, skipped) refl
              | inr kept ↦
                  let named : org ≢ "" = λ bare. absurd (ground (arith, eq_iff org "")) in
                  ap (λ o. get k o.store) (reconcile-managed name ns s read (alive, named, kept))
                  ∙ put_all-get_ne util ns org k r.default_cluster_roles s h
            ]
          ]
        ]
  ]
