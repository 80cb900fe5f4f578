-- ===== src/Webhooks/ServiceLb/Laws.antt =====
-- Which changes of a service pass.
use appuio_cloud_agent.Base.{◌≡◌, true, eq_iff, ◌↔◌, inl, inr, arith}
use appuio_cloud_agent.Kube.{Request, Result-cases, ok, is_allowed}
use appuio_cloud_agent.Webhooks.Guard.{IsChecked}
use appuio_cloud_agent.Webhooks.ServiceLb.{
  Service, ServiceCloudscaleLbValidator, decode_old, uuid, handle,
}

-- A request that the skipper lets be checked is admitted exactly when the new object can be
-- decoded, the old one can be decoded or is missing, and both name the same load balancer, a missing
-- annotation counting as the empty name.
pub handle-uuid_iff :
    (v : ServiceCloudscaleLbValidator) (req : Request)
    → IsChecked (v.skipper req)
    → (is_allowed (handle v req) ≡ true) ↔ (
        (new old : Service) × (v.decoder.decode req ≡ ok new)
        × (decode_old v req ≡ ok old)
        × (uuid old ≡ uuid new))
unfolding handle
handle-uuid_iff v req c = elim (Result-cases (v.decoder.decode req)) [
  | inr (e, failed) ↦ (λ h. ground arith, λ h. ground arith)
  | inl (new, decoded) ↦ elim (Result-cases (decode_old v req)) [
    | inr (e, failed) ↦ (λ h. ground arith, λ h. ground arith)
    | inl (old, decoded_old) ↦ (
      λ h. (new, old, decoded, decoded_old, ground (arith, eq_iff (uuid old) (uuid new))),
      λ (new', old', d, d', same). ground (arith, eq_iff (uuid old) (uuid new)),
    )
  ]
]
