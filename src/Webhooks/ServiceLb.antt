-- ===== src/Webhooks/ServiceLb.antt =====
-- webhooks/service_cloudscale_lb_validator.go
pub mod Laws
use appuio_cloud_agent.Base.{String, [], not, Dict, index, ◌==◌, if◌then◌else◌}
use appuio_cloud_agent.Kube.{
  Request, Response, allowed, denied, errored, text, str, lit, end, Result, ok, Decoder,
}
use appuio_cloud_agent.Skipper.Skip.{Skipper}
use appuio_cloud_agent.Webhooks.Guard.{unless_skipped, attempt}

abbrev pub cloudscale_loadbalancer_uuid_annotation : String
cloudscale_loadbalancer_uuid_annotation = "k8s.cloudscale.ch/loadbalancer-uuid"

-- A `corev1.Service`, by its annotations.
pub record Service : Type 0 where
  pub annotations : Dict String

pub record ServiceCloudscaleLbValidator : Type 0 where
  pub decoder : Decoder Service
  pub skipper : Skipper

-- The old object, or the zero value where the request has none.
abbrev pub decode_old : ServiceCloudscaleLbValidator → Request → Result Service
decode_old v req =
    if req.old_object == ""
    then ok (record { annotations = [] })
    else v.decoder.decode_raw req.old_object

abbrev pub uuid : Service → String
uuid s = index cloudscale_loadbalancer_uuid_annotation s.annotations

unfoldable pub handle : ServiceCloudscaleLbValidator → Request → Response
handle v req =
    unless_skipped (λ e. e) (v.skipper req)
      (attempt (v.decoder.decode req) (errored 400) λ new_service.
        attempt (decode_old v req) (errored 400) λ old_service.
          if not (uuid old_service == uuid new_service)
          then denied (
              str cloudscale_loadbalancer_uuid_annotation (lit " annotation cannot be changed" end))
          else allowed (text "allowed"))
