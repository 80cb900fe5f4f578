-- ===== src/Webhooks/Reserved.antt =====
-- webhooks/reserved_resourcequota_limitrange_validator.go
pub mod Laws
use appuio_cloud_agent.Base.{String, List, ◌==◌, ◌&&◌, contains, if◌then◌else◌}
use appuio_cloud_agent.Kube.{Request, Response, allowed, denied, text}
use appuio_cloud_agent.Skipper.Skip.{Skipper}
use appuio_cloud_agent.Webhooks.Guard.{unless_skipped}

pub record ReservedResourceQuotaLimitRangeValidator : Type 0 where
  pub skipper : Skipper
  pub reserved_resource_quota_names : List String
  pub reserved_limit_range_names : List String

unfoldable pub handle : ReservedResourceQuotaLimitRangeValidator → Request → Response
handle v req =
    unless_skipped (λ e. e) (v.skipper req)
      (if req.kind == "ResourceQuota" && contains v.reserved_resource_quota_names req.name
        then denied (text "reserved ResourceQuota object")
        else (if req.kind == "LimitRange" && contains v.reserved_limit_range_names req.name
            then denied (text "reserved LimitRange object")
            else allowed (text "allowed")))
