-- ===== src/Webhooks/Organization/Tests.antt =====
-- Runs of the organization webhook, and the theorems at concrete requests.

use appuio_cloud_agent.Base.{
  String, true, false, ◌≡◌, refl, ◌≢◌, ◌↔◌, ◌⊎◌, [], ◌∷◌, none, arith, eq_iff, split, index,
  starts_with,
}
use appuio_cloud_agent.Kube.{
  ok, Request, text, denied, patched, is_allowed, string_map, Unstructured, User, Namespace,
  Subject, missing,
}
use appuio_cloud_agent.Skipper.UserInfo.{sa_prefix}
use appuio_cloud_agent.Webhooks.Samples.{request, reader, always, bare, no_skip}
use appuio_cloud_agent.Webhooks.Organization.{
  NamespaceProjectOrganizationMutator, org_label_patch, handle_user_requested,
  handle_service_account_namespace, handle_project, handle_namespace, handle,
}
use appuio_cloud_agent.Webhooks.Organization.Patch.{label_after}
use appuio_cloud_agent.Webhooks.Organization.Membership.{
  IsMember, chosen, handle_user_requested_iff, handle_user_requested-IsMember,
}
use appuio_cloud_agent.Webhooks.Organization.ServiceAccount.{
  IsAccount, handle_service_account_namespace-label,
}
use appuio_cloud_agent.Webhooks.Organization.Laws.{IsEntitled, handle-project_iff}

abbrev mutator : NamespaceProjectOrganizationMutator
mutator = record {
  decoder = always (bare "Namespace");
  client = reader;
  skipper = no_skip;
  organization_label = "appuio.io/organization";
  user_default_organization_annotation = "default-organization";
}

-- Jane's namespace gets the label of her default organization.
default_added :
    handle mutator (request "jane" "Namespace" "web")
    ≡ patched (text "added default organization") (
        record {
          operation = "add";
          path = "/metadata/labels";
          value = string_map (("appuio.io/organization", "acme") ∷ []);
        }
        ∷ [])
unfolding handle handle_namespace handle_user_requested org_label_patch
default_added = refl

-- A user who is in no group.
outsider :
    handle mutator (request "mallory" "Namespace" "web")
    ≡ denied (text "Requester is not a member of the organization")
unfolding handle handle_namespace handle_user_requested org_label_patch
outsider = refl

handle_user_requested_iff_example :
    (is_allowed (handle_user_requested mutator "jane" (bare "Namespace")) ≡ true) ↔ (
      (user : User) × (mutator.client.get_user "jane" ≡ ok user)
      × (chosen mutator "jane" (bare "Namespace") user ≢ "")
      × IsMember mutator "jane" (bare "Namespace") (chosen mutator "jane" (bare "Namespace") user))
handle_user_requested_iff_example = handle_user_requested_iff mutator "jane" (bare "Namespace")

jane_allowed : is_allowed (handle_user_requested mutator "jane" (bare "Namespace")) ≡ true
unfolding handle_user_requested
jane_allowed = refl

handle_user_requested-IsMember_example :
    (label_after mutator
        (bare "Namespace")
        (handle_user_requested mutator "jane" (bare "Namespace"))
      ≢ "")
    × IsMember mutator "jane" (bare "Namespace") (
        label_after mutator
          (bare "Namespace")
          (handle_user_requested mutator "jane" (bare "Namespace")))
handle_user_requested-IsMember_example =
    handle_user_requested-IsMember mutator "jane" (bare "Namespace") (λ k. refl) jane_allowed

-- The service account "deployer" of the namespace "ci".
abbrev deployer : Subject
deployer = record { kind = "ServiceAccount"; namespace = "ci"; name = "deployer" }

abbrev account_request : Request
account_request = request "system:serviceaccount:ci:deployer" "Namespace" "web"

deployer-IsAccount : IsAccount account_request deployer
deployer-IsAccount = record {
  named = refl;
  plain_namespace = ground arith;
  plain_name = ground arith;
}

account_allowed :
    is_allowed (handle_service_account_namespace mutator account_request (bare "Namespace")) ≡ true
unfolding handle_service_account_namespace split
account_allowed = refl

handle_service_account_namespace-label_example :
    (ns : Namespace) × (mutator.client.get_namespace "ci" ≡ ok ns)
    × (label_after mutator
          (bare "Namespace")
          (handle_service_account_namespace mutator account_request (bare "Namespace"))
        ≡ index "appuio.io/organization" ns.labels)
handle_service_account_namespace-label_example =
    handle_service_account_namespace-label mutator (bare "Namespace") account_request deployer
      deployer-IsAccount (λ k. refl) account_allowed

-- A project that a service account asks for.
abbrev project : Unstructured
project = record {
  kind = "Project";
  annotations = ("openshift.io/requester", "system:serviceaccount:ci:deployer") ∷ [];
  labels = [];
  nested_string_map = λ _. missing;
  nested_string = λ _. missing;
}

abbrev project_mutator : NamespaceProjectOrganizationMutator
project_mutator = record mutator { decoder = always project; skipper = λ _. (true, none) }

handle-project_iff_example :
    (is_allowed (handle project_mutator (request "apiserver" "Project" "web")) ≡ true) ↔ (
      (index "openshift.io/requester" project.annotations ≡ "")
      ⊎ ((starts_with (index "openshift.io/requester" project.annotations) sa_prefix ≡ false)
          × IsEntitled project_mutator
              (index "openshift.io/requester" project.annotations)
              project))
handle-project_iff_example =
    handle-project_iff project_mutator (request "apiserver" "Project" "web") true project refl refl
      refl

project_refused :
    handle project_mutator (request "apiserver" "Project" "web")
    ≡ denied (text "Service accounts are not allowed to create projects")
unfolding handle handle_project
project_refused = refl

not_project : ◌≢◌ {A = String} "Namespace" "Project"
not_project = ground (arith, eq_iff "Namespace" "Project")
