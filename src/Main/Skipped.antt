-- ===== src/Main/Skipped.antt =====
-- webhooks/: what the handlers answer when their skipper skips the request.
use appuio_cloud_agent.Base.{
  index, starts_with, String, Bool, Bool-cases, true, ◌≡◌, refl, ◌⊎◌, inl, inr, none, ◌==◌, eq_iff,
  arith,
}
use appuio_cloud_agent.Kube.{Request, text, allowed, denied, ok, Unstructured, StringSet, Multierr}
use appuio_cloud_agent.Webhooks.Quota
use appuio_cloud_agent.Webhooks.Quota.{NamespaceQuotaValidator}
use appuio_cloud_agent.Webhooks.ServiceLb
use appuio_cloud_agent.Webhooks.ServiceLb.{ServiceCloudscaleLbValidator}
use appuio_cloud_agent.Webhooks.Reserved
use appuio_cloud_agent.Webhooks.Reserved.{ReservedResourceQuotaLimitRangeValidator}
use appuio_cloud_agent.Webhooks.Organization
use appuio_cloud_agent.Webhooks.Organization.{
  NamespaceProjectOrganizationMutator, handle_project, openshift_project_requester_annotation,
}
use appuio_cloud_agent.Skipper.UserInfo.{sa_prefix}
use mathlib.Core.Path.{subst}
use appuio_cloud_agent.Webhooks.Metadata
use appuio_cloud_agent.Webhooks.Metadata.{NamespaceMetadataValidator}
use appuio_cloud_agent.Webhooks.RunOnce
use appuio_cloud_agent.Webhooks.RunOnce.{PodRunOnceActiveDeadlineSecondsMutator}

pub quota_skipped :
    (v : NamespaceQuotaValidator) (req : Request)
    → v.skipper req ≡ (true, none)
    → Quota.handle v req ≡ allowed (text "skipped")
unfolding Quota.handle
quota_skipped v req h = rw h refl

pub service_lb_skipped :
    (v : ServiceCloudscaleLbValidator) (req : Request)
    → v.skipper req ≡ (true, none)
    → ServiceLb.handle v req ≡ allowed (text "skipped")
unfolding ServiceLb.handle
service_lb_skipped v req h = rw h refl

pub reserved_skipped :
    (v : ReservedResourceQuotaLimitRangeValidator) (req : Request)
    → v.skipper req ≡ (true, none)
    → Reserved.handle v req ≡ allowed (text "skipped")
unfolding Reserved.handle
reserved_skipped v req h = rw h refl

pub metadata_skipped :
    (sets : StringSet) (match : String → String → Bool) (multierr : Multierr)
    (v : NamespaceMetadataValidator) (req : Request)
    → v.skipper req ≡ (true, none)
    → Metadata.handle sets match multierr v req ≡ allowed (text "skipped")
unfolding Metadata.handle
metadata_skipped sets match multierr v req h = rw h refl

pub run_once_skipped :
    (m : PodRunOnceActiveDeadlineSecondsMutator) (req : Request)
    → m.skipper req ≡ (true, none)
    → RunOnce.handle m req ≡ allowed (text "skipped")
unfolding RunOnce.handle
run_once_skipped m req h = rw h refl

-- Requests for projects are not skipped.
pub organization_skipped :
    (m : NamespaceProjectOrganizationMutator) (req : Request)
    → m.skipper req ≡ (true, none)
    → (req.kind ≡ "Project") ⊎ (Organization.handle m req ≡ allowed (text "skipped"))
unfolding Organization.handle
organization_skipped m req h = elim (Bool-cases (req.kind == "Project")) [
  | inl project ↦ inl ((eq_iff req.kind "Project").0 project)
  | inr other ↦ inr (rw (h, other) refl)
]

-- A skipped request for a project is handled nevertheless.
pub project_denied :
    (m : NamespaceProjectOrganizationMutator) (req : Request) (raw : Unstructured)
    → m.skipper req ≡ (true, none)
    → req.kind ≡ "Project"
    → m.decoder.decode req ≡ ok raw
    → starts_with (index openshift_project_requester_annotation raw.annotations) sa_prefix ≡ true
    → Organization.handle m req
      ≡ denied (text "Service accounts are not allowed to create projects")
unfolding Organization.handle handle_project
project_denied m req raw h project decoded sa =
    let name = index openshift_project_requester_annotation raw.annotations in
    let is_project = (eq_iff req.kind "Project").1 project in
    elim (Bool-cases (name == "")) [
      | inl unset ↦ absurd (
          let empty = subst (λ n. starts_with n sa_prefix ≡ true) ((eq_iff name "").0 unset) sa in
          ground arith)
      | inr named ↦ rw (h, is_project, decoded, named, sa) refl
    ]
