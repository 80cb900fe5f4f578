-- ===== src/Webhooks/RunOnce.antt =====
-- webhooks/pod_runonce_active_deadline_seconds_mutator.go
pub mod Laws
use appuio_cloud_agent.Base.{
  ℤ, String, Bool, List, not, ◌&&◌, Option, none, some, index, ◌==◌, if◌then◌else◌, atoi, [], ◌∷◌,
}
use appuio_cloud_agent.Kube.{
  Request, Response, allowed, errored, patched, text, str, quoted, num, lit, end, Result, ok, err,
  Decoder, Reader, wrapf, external, Namespace, Operation, int,
}
use appuio_cloud_agent.Skipper.Skip.{Skipper}
use appuio_cloud_agent.Webhooks.Guard.{unless_skipped, attempt}

-- A `corev1.Pod`, by its restart policy and its deadline.
pub record Pod : Type 0 where
  pub restart_policy : String
  pub active_deadline_seconds : Option ℤ

pub record PodRunOnceActiveDeadlineSecondsMutator : Type 0 where
  pub decoder : Decoder Pod
  pub client : Reader
  pub override_annotation : String
  pub default_active_deadline_seconds : ℤ
  pub skipper : Skipper

abbrev pub deadline_patch : ℤ → List Operation
deadline_patch ads =
    record { operation = "add"; path = "/spec/activeDeadlineSeconds"; value = int ads } ∷ []

-- The end of the handler, once the namespace is known.
abbrev pub patch_deadline : PodRunOnceActiveDeadlineSecondsMutator → Request → Namespace → Response
patch_deadline m req ns =
    let oa = index m.override_annotation ns.annotations in
    if not (oa == "")
    then elim (atoi oa) [
      | none ↦ errored 500 (
          wrapf
            (lit "failed to parse override annotation "
              (quoted oa (lit " for namespace " (quoted req.namespace end))))
            (external "strconv.Atoi"))
      | some parsed ↦
          patched
            (lit "added activeDeadlineSeconds "
              (num parsed (lit " from override annotation " (quoted m.override_annotation end))))
            (deadline_patch parsed)
    ]
    else patched
        (lit "added default activeDeadlineSeconds " (num m.default_active_deadline_seconds end))
        (deadline_patch m.default_active_deadline_seconds)

unfoldable pub handle : PodRunOnceActiveDeadlineSecondsMutator → Request → Response
handle m req = unless_skipped (wrapf (text "error while checking skipper: ")) (m.skipper req) (
    attempt (m.decoder.decode req) (errored 422) λ pod.
      if not (pod.restart_policy == "OnFailure") && not (pod.restart_policy == "Never")
      then allowed (
          lit "pod restart policy is "
            (quoted pod.restart_policy (lit ", no activeDeadlineSeconds needed" end)))
      else elim pod.active_deadline_seconds [
        | some _ ↦ allowed (text "pod already has an activeDeadlineSeconds value")
        | none ↦
            attempt (m.client.get_namespace req.namespace)
              (λ e.
                errored 500 (wrapf (text "failed to fetch namespace for override annotation: ") e))
              (patch_deadline m req)
      ])
