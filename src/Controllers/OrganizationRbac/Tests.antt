-- ===== src/Controllers/OrganizationRbac/Tests.antt =====
-- A reconciliation of a namespace without role bindings, and the theorems there.
use appuio_cloud_agent.Base.{
  String, Bool-cases, true, false, ◌≡◌, ◌≢◌, refl, inl, inr, sym, ap, [], ◌∷◌, Option, none, some,
  ◌==◌, eq_iff, if◌then◌else◌, arith, parse_bool,
}
use appuio_cloud_agent.Kube.{or_given, Error, Result, ok, err, Namespace, first_only}
use appuio_cloud_agent.Webhooks.Samples.{ci}
use appuio_cloud_agent.Controllers.OrganizationRbac.{
  RoleBinding, Controllerutil, OrganizationRbacReconciler, reconcile, put_all, put_role_binding,
}
use appuio_cloud_agent.Controllers.OrganizationRbac.Laws.{IsPut, reconcile-IsPut}

-- A store is a function from the name.
abbrev Bindings : Type 0
Bindings = String → Option RoleBinding

abbrev put : String → Result RoleBinding → Bindings → Bindings × Option Error
put name (ok new) s = ((λ k. if name == k then some new else s k), none)
put name (err e) s = (s, some e)

put-get :
    (name : String) (made : Result RoleBinding) (s : Bindings)
    → (put name made s).1 ≡ none
    → (new : RoleBinding) × (made ≡ ok new) × ((put name made s).0 name ≡ some new)
put-get name (ok new) s h = (new, refl, rw ((eq_iff name name).1 refl) refl)
put-get name (err e) s h = absurd (ground arith)

put-get_ne :
    (name : String) (made : Result RoleBinding) (s : Bindings) (k : String)
    → name ≢ k
    → (put name made s).0 k ≡ s k
put-get_ne name (ok new) s k h = elim (Bool-cases (name == k)) [
  | inl same ↦ absurd (h ((eq_iff name k).0 same))
  | inr other ↦ rw other refl
]
put-get_ne name (err e) s k h = refl

abbrev own : Namespace → RoleBinding → Result RoleBinding
own ns rb = ok (record rb { controller = some ns.name })

own-rest :
    (ns : Namespace) (rb new : RoleBinding)
    → own ns rb ≡ ok new
    → (new.labels ≡ rb.labels) × (new.subjects ≡ rb.subjects) × (new.role_ref ≡ rb.role_ref)
own-rest ns rb new h =
    let e = sym (ap (λ r. elim r [ ok x ↦ x | err _ ↦ rb ]) h) in
    (ap (λ x. x.labels) e, ap (λ x. x.subjects) e, ap (λ x. x.role_ref) e)

abbrev util : Controllerutil
util = record {
  Store = Bindings;
  get = λ k s. s k;
  create_or_update = λ rb f s. put rb.name (f (or_given rb (s rb.name))) s;
  set_controller_reference = own;
  create_or_update-get = λ rb f s h. put-get rb.name (f (or_given rb (s rb.name))) s h;
  create_or_update-get_ne = λ rb f s k h. put-get_ne rb.name (f (or_given rb (s rb.name))) s k h;
  set_controller_reference-rest = own-rest;
}

abbrev reconciler : OrganizationRbacReconciler util
reconciler = record {
  get_namespace = λ _. ok ci;
  organization_label = "appuio.io/organization";
  default_cluster_roles = ("admin", "admin") ∷ [];
}

abbrev nothing : Bindings
nothing _ = none

succeeds : (reconcile util first_only reconciler "ci" nothing).error ≡ none
unfolding reconcile put_all put_role_binding parse_bool
succeeds = refl

reconcile-IsPut_example :
    IsPut util ci "acme" "admin" "admin" nothing
      (reconcile util first_only reconciler "ci" nothing).store
unfolding parse_bool
reconcile-IsPut_example =
    reconcile-IsPut util first_only reconciler "ci" ci nothing refl
      (refl, (λ h. let e : false ≡ true = ap (λ s. s == "") h in absurd (ground arith)), refl)
      (refl, tt) succeeds "admin" "admin" refl
