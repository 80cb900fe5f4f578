-- ===== src/Ratio/Fetcher.antt =====
-- ratio/fetcher.go. `show_set`, which is `labels.Set.String`, is a parameter, as are the decimals and
-- the client's list of the pods of a namespace.
use appuio_cloud_agent.Base.{
  String, Bool, false, not, ◌&&◌, List, [], ◌∷◌, Option, none, some, Dict, lookup, insert, ◌==◌,
  if◌then◌else◌, is_some, is_true, parse_bool,
}
use appuio_cloud_agent.Kube.{Decimal, Result, ok, err, ◌>>=◌, disabled, Namespace, Reader}
use appuio_cloud_agent.Ratio.Record.{Pod, Ratio, new_ratio, record_pod}

abbrev pub ratio_validatior_disable_annotation : String
ratio_validatior_disable_annotation = "validate-request-ratio.appuio.io/disable"

pub record Fetcher (D : Type 0) : Type 0 where
  pub client : Reader
  -- the pods of a namespace
  pub list_pods : String → Result (List (Pod D))
  pub organization_label : String

-- An annotation that is missing, or that is no Boolean, disables nothing.
abbrev pub reads_true : Option String → Bool
reads_true none = false
reads_true (some s) = is_true (parse_bool s)

abbrev pub switched_off : Namespace → Bool
switched_off ns = reads_true (lookup ratio_validatior_disable_annotation ns.annotations)

abbrev pub lacks_organization : String → Namespace → Bool
lacks_organization label ns = not (label == "") && not (is_some (lookup label ns.labels))

module _ (dec : Decimal) (show_set : Dict String → String) where
  open dec use {D}

  abbrev pub or_new : Option (Ratio D) → Ratio D
  or_new none = new_ratio dec
  or_new (some r) = r

  -- The loop over the pods, on the map built so far.
  unfoldable pub group : List (Pod D) → Dict (Ratio D) → Dict (Ratio D)
  group [] ratios = ratios
  group (pod ∷ pods) ratios =
      let k = show_set pod.spec.node_selector in
      let r = or_new (lookup k ratios) in group pods (insert k (record_pod dec (pod ∷ []) r) ratios)

  unfoldable pub fetch_ratios : Fetcher D → String → Result (Dict (Ratio D))
  fetch_ratios f name = f.client.get_namespace name >>= λ ns.
      if switched_off ns
      then err disabled
      else (if lacks_organization f.organization_label ns
          then err disabled
          else f.list_pods name >>= λ pods. ok (group pods []))
