-- ===== src/Webhooks/RunOnce/Laws.antt =====
-- Which pods get which deadline.
use appuio_cloud_agent.Base.{ℤ, ◌≡◌, ◌≢◌, ◌⊎◌, some, index, atoi}
use appuio_cloud_agent.Kube.{Namespace}
use appuio_cloud_agent.Webhooks.RunOnce.{Pod, PodRunOnceActiveDeadlineSecondsMutator}

abbrev pub RunsOnce : Pod → Type 0
RunsOnce pod = (pod.restart_policy ≡ "OnFailure") ⊎ (pod.restart_policy ≡ "Never")

-- The deadline for a namespace: the override annotation's, or else the default.
abbrev pub IsDeadline : PodRunOnceActiveDeadlineSecondsMutator → Namespace → ℤ → Type 0
IsDeadline m ns ads =
    ((index m.override_annotation ns.annotations ≡ "") × (ads ≡ m.default_active_deadline_seconds))
    ⊎ ((index m.override_annotation ns.annotations ≢ "")
        × (atoi (index m.override_annotation ns.annotations) ≡ some ads))
