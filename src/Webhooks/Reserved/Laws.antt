-- ===== src/Webhooks/Reserved/Laws.antt =====
-- Which requests on resource quotas and limit ranges pass.
use appuio_cloud_agent.Base.{◌≡◌, true, eq_iff, ◌↔◌, ◌⊎◌, In, contains_iff, arith}
use appuio_cloud_agent.Kube.{Request, is_allowed}
use appuio_cloud_agent.Webhooks.Guard.{IsChecked}
use appuio_cloud_agent.Webhooks.Reserved.{ReservedResourceQuotaLimitRangeValidator, handle}

-- The object of the request is a reserved one.
abbrev pub IsReserved : ReservedResourceQuotaLimitRangeValidator → Request → Type 0
IsReserved v req =
    ((req.kind ≡ "ResourceQuota") × In req.name v.reserved_resource_quota_names)
    ⊎ ((req.kind ≡ "LimitRange") × In req.name v.reserved_limit_range_names)

-- A request that the skipper lets be checked is admitted exactly when its object is not reserved:
-- a resource quota or a limit range whose name is on the list for its kind.
pub handle-IsReserved_iff :
    (v : ReservedResourceQuotaLimitRangeValidator) (req : Request)
    → IsChecked (v.skipper req)
    → (is_allowed (handle v req) ≡ true) ↔ (¬ IsReserved v req)
unfolding handle
handle-IsReserved_iff v req c = ground (
  arith,
  eq_iff req.kind "ResourceQuota",
  eq_iff req.kind "LimitRange",
  contains_iff v.reserved_resource_quota_names req.name,
  contains_iff v.reserved_limit_range_names req.name,
)
