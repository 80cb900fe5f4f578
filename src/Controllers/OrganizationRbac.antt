-- ===== src/Controllers/OrganizationRbac.antt =====
-- controllers/org_rbac_controller.go. The state is the role bindings of the namespace that is
-- reconciled; `controllerutil` is an interface with what its documentation promises.
pub mod Laws
mod Tests
use appuio_cloud_agent.Base.{
  String, Bool, true, false, ◌≡◌, ◌≢◌, List, [], ◌∷◌, Option, none, some, Dict, ◌==◌, if◌then◌else◌,
  index, erase, parse_bool, is_true,
}
use appuio_cloud_agent.Kube.{
  Error, ignore_not_found, or_given, Result, ok, err, Namespace, Subject, Multierr,
}

abbrev pub label_role_binding_uninitialized : String
label_role_binding_uninitialized = "appuio.io/uninitialized"

abbrev pub label_namespace_no_rbac : String
label_namespace_no_rbac = "appuio.io/no-rbac-creation"

pub record RoleBinding : Type 0 where
  pub name : String
  pub labels : Dict String
  -- the name of the cluster role
  pub role_ref : String
  pub subjects : List Subject
  -- the namespace that controls it
  pub controller : Option String

pub record Controllerutil : Type 1 where
  pub Store : Type 0
  pub get : String → Store → Option RoleBinding
  pub create_or_update :
      RoleBinding → (RoleBinding → Result RoleBinding) → Store → Store × Option Error
  pub set_controller_reference : Namespace → RoleBinding → Result RoleBinding
  -- without an error, the object is what the function made of the existing one, or of the given one
  -- where there was none
  pub create_or_update-get :
      (rb : RoleBinding) (f : RoleBinding → Result RoleBinding) (s : Store)
      → (create_or_update rb f s).1 ≡ none
      → (new : RoleBinding) × (f (or_given rb (get rb.name s)) ≡ ok new)
        × (get rb.name (create_or_update rb f s).0 ≡ some new)
  -- no other object changes
  pub create_or_update-get_ne :
      (rb : RoleBinding) (f : RoleBinding → Result RoleBinding) (s : Store) (k : String)
      → rb.name ≢ k
      → get k (create_or_update rb f s).0 ≡ get k s
  -- only the owner of the object is set
  pub set_controller_reference-rest :
      (ns : Namespace) (rb new : RoleBinding)
      → set_controller_reference ns rb ≡ ok new
      → (new.labels ≡ rb.labels) × (new.subjects ≡ rb.subjects) × (new.role_ref ≡ rb.role_ref)

abbrev pub rolebinding_is_uninitialized : RoleBinding → Bool
rolebinding_is_uninitialized rb =
    is_true (parse_bool (index label_role_binding_uninitialized rb.labels))

abbrev pub group_subject : String → Subject
group_subject group = record { kind = "Group"; namespace = ""; name = group }

-- The object that `putRoleBinding` gives to `CreateOrUpdate`.
abbrev pub fresh : String → String → RoleBinding
fresh name cluster_role = record {
  name = name;
  labels = (label_role_binding_uninitialized, "true") ∷ [];
  role_ref = cluster_role;
  subjects = [];
  controller = none;
}

-- What the function makes of the binding before it sets the owner.
abbrev pub initialized : String → RoleBinding → RoleBinding
initialized group rb =
    if rolebinding_is_uninitialized rb
    then record rb {
      subjects = group_subject group ∷ [];
      labels = erase label_role_binding_uninitialized rb.labels;
    }
    else rb

module _ (util : Controllerutil) where
  open util use {Store, get, create_or_update, set_controller_reference}

  unfoldable pub put_role_binding :
      Namespace → String → String → String → Store → Store × Option Error
  put_role_binding ns name cluster_role group s =
      create_or_update (fresh name cluster_role)
        (λ rb. set_controller_reference ns (initialized group rb)) s

  -- The store, the errors, and the role bindings for which a warning was recorded.
  pub record Progress : Type 0 where
    pub store : Store
    pub errs : List Error
    pub events : List String

  abbrev pub with_error : String → Option Error → Progress → Progress
  with_error rb none p = p
  with_error rb (some e) p = record { store = p.store; errs = e ∷ p.errs; events = rb ∷ p.events }

  -- The loop over the default cluster roles.
  unfoldable pub put_all : Namespace → String → Dict String → Store → Progress
  put_all ns org [] s = record { store = s; errs = []; events = [] }
  put_all ns org ((rb, cr) ∷ roles) s =
      let put = put_role_binding ns rb cr org s in
      let rest = put_all ns org roles put.0 in with_error rb put.1 rest

  pub record OrganizationRbacReconciler : Type 0 where
    pub get_namespace : String → Result Namespace
    pub organization_label : String
    pub default_cluster_roles : Dict String

  pub record Outcome : Type 0 where
    pub store : Store
    pub error : Option Error
    pub events : List String

  abbrev pub unchanged : Store → Option Error → Outcome
  unchanged s e = record { store = s; error = e; events = [] }

  abbrev pub skip_rbac_management : Namespace → Bool
  skip_rbac_management ns = is_true (parse_bool (index label_namespace_no_rbac ns.labels))

  module _ (multierr : Multierr) (r : OrganizationRbacReconciler) where
    abbrev pub get_organization : Namespace → String
    get_organization ns = index r.organization_label ns.labels

    abbrev pub combined : Progress → Outcome
    combined p = record { store = p.store; error = multierr.combine p.errs; events = p.events }

    abbrev pub on_namespace : Result Namespace → Store → Outcome
    on_namespace (err e) s = unchanged s (ignore_not_found e)
    on_namespace (ok ns) s =
        if ns.deleting
        then unchanged s none
        else (if get_organization ns == ""
            then unchanged s none
            else (if skip_rbac_management ns
                then unchanged s none
                else combined (put_all ns (get_organization ns) r.default_cluster_roles s)))

    unfoldable pub reconcile : String → Store → Outcome
    reconcile name s = on_namespace (r.get_namespace name) s
