-- ===== src/Ratio/Tests.antt =====
-- Runs of the ratio's code on small lists of pods, with whole numbers as the decimals, and the
-- theorems at concrete inputs.
use appuio_cloud_agent.Base.{
  ℕ, ◌≤◌, ◌<◌, ◌*◌, ◌+◌, ℤ, pos, String, Bool, true, false, ◌≡◌, refl, List, [], ◌∷◌, some, Dict,
  ◌==◌, arith, ◌*ℤ◌, ◌+ℤ◌,
}
use appuio_cloud_agent.Kube.{integers, Result, ok, err, external}
use appuio_cloud_agent.Webhooks.Samples.{reader}
use appuio_cloud_agent.Ratio.Record.{
  Pod, new_ratio, add_containers, record_replicated_pod_spec, record_pod, ratio,
}
use appuio_cloud_agent.Ratio.Limits.{Limit}
use appuio_cloud_agent.Ratio.Fetcher.{Fetcher}
use appuio_cloud_agent.Ratio.Rounding.{IsNear, ratio-mib}

abbrev pod : String → ℕ → ℕ → Pod ℤ
pod phase cpu memory = record {
  phase = phase;
  spec = record {
    containers = record { cpu = pos cpu; memory = pos memory } ∷ [];
    node_selector = ("class", "plus") ∷ [];
  };
}

abbrev pods : List (Pod ℤ)
pods = pod "Running" 2 5000000 ∷ pod "Pending" 7 1 ∷ []

recorded :
    record_pod integers pods (new_ratio integers) ≡ record { cpu = pos 2; memory = pos 5000000 }
unfolding record_pod record_replicated_pod_spec add_containers ◌*ℤ◌ ◌+ℤ◌
recorded = refl

-- 2500000 bytes for each core are rounded up to 3 MiB.
rounded_up : ratio integers (record { cpu = pos 2; memory = pos 5000000 }) ≡ some (pos 3145728)
unfolding ratio ◌*ℤ◌
rounded_up = refl

-- One byte for 3 cores is rounded to no byte, and not up to a MiB.
rounded_to_zero : ratio integers (record { cpu = pos 3; memory = pos 1 }) ≡ some (pos 0)
unfolding ratio ◌*ℤ◌
rounded_to_zero = refl

-- A key is its first label here.
abbrev show : Dict String → String
show [] = ""
show ((k, v) ∷ _) = v

abbrev fetcher : Fetcher ℤ
fetcher = record {
  client = reader;
  list_pods = λ _. ok pods;
  organization_label = "appuio.io/organization";
}

-- Selectors are a value of the first label, and the empty one is not valid.
abbrev as_selector : String → Result (Dict String → Bool)
as_selector s = elim (s == "") [
  | true ↦ err (external "selector")
  | false ↦ ok (λ labels. show labels == s)
]

abbrev limit : String → ℕ → Limit String ℤ
limit s n = record { node_selector = s; limit = some (pos n) }

ratio-mib_example :
    (q : ℕ) × IsNear 5000000 2 q
    × (k : ℕ) × (ratio integers (record { cpu = pos 2; memory = pos 5000000 })
        ≡ some (pos (k * 1048576)))
    × (q ≤ k * 1048576)
    × (k * 1048576 < q + 1048576)
ratio-mib_example = ratio-mib integers 5000000 2 (omega arith)
