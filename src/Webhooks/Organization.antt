-- ===== src/Webhooks/Organization.antt =====
-- webhooks/namespace_project_organization_mutator.go
pub mod Patch
pub mod Membership
pub mod ServiceAccount
pub mod Laws
mod Tests
use Prim.Native.String.{◌++◌ as str_append}
use appuio_cloud_agent.Base.{
  String, Bool, true, false, not, ◌&&◌, List, [], ◌∷◌, Option, none, some, Dict, index, contains,
  ◌==◌, if◌then◌else◌, starts_with, split, join,
}
use appuio_cloud_agent.Kube.{
  Error, errorf, wrapf, is_not_found, text, lit, str, end, Result, ok, err, Request, Response,
  allowed, denied, errored, patched, Operation, string, string_map, Decoder, Unstructured, Found,
  found, missing, mistyped, Group, Namespace, User, Reader,
}
use appuio_cloud_agent.Skipper.Skip.{Skipper}
use appuio_cloud_agent.Skipper.UserInfo.{sa_prefix}
use appuio_cloud_agent.Webhooks.Guard.{attempt}
use appuio_cloud_agent.Webhooks.Pointer.{escape_json_pointer_segment}

pub record NamespaceProjectOrganizationMutator : Type 0 where
  pub decoder : Decoder Unstructured
  pub client : Reader
  pub skipper : Skipper
  pub organization_label : String
  pub user_default_organization_annotation : String

abbrev pub openshift_project_requester_annotation : String
openshift_project_requester_annotation = "openshift.io/requester"

-- `client.IgnoreNotFound`: a group that is missing has no users.
abbrev pub group_users : Result Group → Result (List String)
group_users (ok g) = ok g.users
group_users (err e) = if is_not_found e then ok [] else err e

-- The third of the four segments of a service account's name, or none.
abbrev pub third_of_four : List String → Option String
third_of_four (a ∷ b ∷ c ∷ d ∷ []) = some c
third_of_four _ = none

module _ (m : NamespaceProjectOrganizationMutator) where
  -- The operation, by whether the object has labels.
  abbrev pub label_operation : String → Found (Dict String) → Operation
  label_operation org (found _) = record {
    operation = "add";
    path =
        str_append "/" (
          join "/" ("metadata" ∷ "labels" ∷ escape_json_pointer_segment m.organization_label ∷ []));
    value = string org;
  }
  label_operation org _ = record {
    operation = "add";
    path = "/metadata/labels";
    value = string_map ((m.organization_label, org) ∷ []);
  }

  unfoldable pub org_label_patch : Unstructured → String → Operation
  org_label_patch raw org = label_operation org (raw.nested_string_map ("metadata" ∷ "labels" ∷ []))

  -- The end of `handleUserRequested`, once the organization is known.
  abbrev pub check_membership : String → Unstructured → String → Bool → Response
  check_membership user_name raw org default_org_added =
      attempt (group_users (m.client.get_group org))
        (λ e. errored 500 (wrapf (text "failed to get group: ") e))
        λ users.
          if not (contains users user_name)
          then denied (text "Requester is not a member of the organization")
          else (if default_org_added
              then patched (text "added default organization") (org_label_patch raw org ∷ [])
              else allowed (text "Requester is member of organization"))

  abbrev pub choose_organization : String → Unstructured → User → Response
  choose_organization user_name raw user =
      let labelled = index m.organization_label raw.labels in
      let default_org_added = labelled == "" in
      let org =
        if default_org_added
        then index m.user_default_organization_annotation user.annotations
        else labelled in
      if org == ""
      then denied (text "No organization label found and no default organization set")
      else check_membership user_name raw org default_org_added

  unfoldable pub handle_user_requested : String → Unstructured → Response
  handle_user_requested user_name raw =
      attempt (m.client.get_user user_name)
        (λ e. errored 500 (wrapf (lit "failed to get user " (str user_name (lit ": " end))) e))
        (choose_organization user_name raw)

  -- The end of `handleServiceAccountNamespace`, once the account's namespace is known.
  abbrev pub check_account_organization : Unstructured → Namespace → Response
  check_account_organization raw ns =
      let ns_org = index m.organization_label ns.labels in
      let requested_org = index m.organization_label raw.labels in
      if ns_org == ""
      then denied (text "No organization label found for the service accounts namespace")
      else (if not (requested_org == "") && not (requested_org == ns_org)
          then denied (
              text
                "Service accounts are not allowed to use organizations other than the one of their namespace.")
          else (if requested_org == ""
              then patched (text "added organization label") (org_label_patch raw ns_org ∷ [])
              else allowed (text "service account may use the organization of its namespace")))

  -- The handler on the name of the account's namespace, if it could be read.
  abbrev pub account_namespace : Request → Unstructured → Option String → Response
  account_namespace req raw none = errored 422 (
      errorf (
        lit "invalid service account name: "
          (str req.user_info.username (lit ", expected 4 segments" end))))
  account_namespace req raw (some ns_name) =
      attempt (m.client.get_namespace ns_name)
        (λ e. errored 500 (
          wrapf
            (lit "failed to get namespace " (
              str ns_name
                (lit " for service account " (str req.user_info.username (lit ": " end)))))
            e))
        (check_account_organization raw)

  unfoldable pub handle_service_account_namespace : Request → Unstructured → Response
  handle_service_account_namespace req raw =
      account_namespace req raw (third_of_four (split b':' req.user_info.username))

  unfoldable pub handle_namespace : Request → Unstructured → Response
  handle_namespace req raw =
      if starts_with req.user_info.username sa_prefix
      then handle_service_account_namespace req raw
      else handle_user_requested req.user_info.username raw

  unfoldable pub handle_project : Unstructured → Response
  handle_project raw =
      let user_name = index openshift_project_requester_annotation raw.annotations in
      if user_name == ""
      then allowed (text "Skipped: no requester annotation found")
      else (if starts_with user_name sa_prefix
          then denied (text "Service accounts are not allowed to create projects")
          else handle_user_requested user_name raw)

  -- The handler once the skipper has answered without an error.
  abbrev pub handle_unskipped : Request → Response
  handle_unskipped req =
      attempt (m.decoder.decode req)
        (λ e. errored 400 (wrapf (text "failed to decode object from request: ") e))
        λ raw. if req.kind == "Project" then handle_project raw else handle_namespace req raw

  abbrev pub after_skip : Bool × Option Error → Request → Response
  after_skip (_, some e) req = errored 500 (wrapf (text "error while checking skipper: ") e)
  after_skip (skip, none) req =
      if skip && not (req.kind == "Project") then allowed (text "skipped") else handle_unskipped req

  unfoldable pub handle : Request → Response
  handle req = after_skip (m.skipper req) req
