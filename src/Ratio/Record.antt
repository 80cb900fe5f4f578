-- ===== src/Ratio/Record.antt =====
-- ratio/ratio.go. Decimals are the section's parameter.
use Prim.Native.Nat.{Ordering}
use appuio_cloud_agent.Base.{
  ℤ, pos, String, Bool, true, false, List, [], ◌∷◌, Option, none, some, Dict, ◌==◌, if◌then◌else◌,
}
use appuio_cloud_agent.Kube.{Decimal, half_even, up, Message, lit, str, quoted, end}

abbrev pub mib : ℤ
mib = pos 1048576

abbrev pub is_gt : Ordering → Bool
is_gt Ordering.gt = true
is_gt _ = false

abbrev pub is_lt : Ordering → Bool
is_lt Ordering.lt = true
is_lt _ = false

-- What is read of a container, a pod specification, a pod, and of a deployment or a stateful set.
pub record Container (D : Type 0) : Type 0 where
  pub cpu : D
  pub memory : D

pub record PodSpec (D : Type 0) : Type 0 where
  pub containers : List (Container D)
  pub node_selector : Dict String

pub record Pod (D : Type 0) : Type 0 where
  pub phase : String
  pub spec : PodSpec D

pub record Workload (D : Type 0) : Type 0 where
  pub replicas : Option ℤ
  pub template : PodSpec D

pub record Ratio (D : Type 0) : Type 0 where
  pub cpu : D
  pub memory : D

module _ (dec : Decimal) where
  open dec use {D, new_dec, add, mul, cmp, quo_round}

  abbrev pub new_ratio : Ratio D
  new_ratio = record { cpu = new_dec (pos 0); memory = new_dec (pos 0) }

  -- The loop over the containers, on the running totals.
  unfoldable pub add_containers : List (Container D) → Ratio D → Ratio D
  add_containers [] total = total
  add_containers (c ∷ cs) total =
      add_containers cs (record { cpu = add total.cpu c.cpu; memory = add total.memory c.memory })

  unfoldable pub record_replicated_pod_spec : ℤ → PodSpec D → Ratio D → Ratio D
  record_replicated_pod_spec replicas spec r =
      let total = add_containers spec.containers new_ratio in
      let rep = new_dec replicas in
      record { cpu = add r.cpu (mul total.cpu rep); memory = add r.memory (mul total.memory rep) }

  unfoldable pub record_pod : List (Pod D) → Ratio D → Ratio D
  record_pod [] r = r
  record_pod (pod ∷ pods) r =
      record_pod pods
        (if pod.phase == "Running" then record_replicated_pod_spec (pos 1) pod.spec r else r)

  abbrev pub replicas_or_one : Option ℤ → ℤ
  replicas_or_one none = pos 1
  replicas_or_one (some n) = n

  unfoldable pub record_deployment : List (Workload D) → Ratio D → Ratio D
  record_deployment [] r = r
  record_deployment (dep ∷ deps) r =
      record_deployment deps
        (record_replicated_pod_spec (replicas_or_one dep.replicas) dep.template r)

  unfoldable pub record_stateful_set : List (Workload D) → Ratio D → Ratio D
  record_stateful_set [] r = r
  record_stateful_set (sts ∷ stss) r =
      record_stateful_set stss
        (record_replicated_pod_spec (replicas_or_one sts.replicas) sts.template r)

  -- `Ratio.Ratio`; `none` is nil.
  unfoldable pub ratio : Ratio D → Option D
  ratio r =
      if is_gt (cmp r.cpu (new_dec (pos 0)))
      then some
          (mul (quo_round (quo_round r.memory r.cpu half_even) (new_dec mib) up) (new_dec mib))
      else none

  abbrev pub threshold_or_one : Option D → D
  threshold_or_one none = new_dec (pos 1)
  threshold_or_one (some t) = t

  abbrev pub is_below : Option D → D → Bool
  is_below none bound = false
  is_below (some q) bound = is_lt (cmp q bound)

  unfoldable pub below : Ratio D → D → Option D → Bool
  below r limit threshold = is_below (ratio r) (mul limit (threshold_or_one threshold))

  -- `Ratio.Warn`, in terms of how a ratio and a limit are printed.
  unfoldable pub warn : (Option D → String) → Ratio D → Option D → String → Message
  warn show r limit node_selector =
      let tail = lit " in this namespace is below the fair use ratio" (
        with_limit (
          lit ". APPUiO Cloud bills CPU requests which exceed the fair use ratio." (
            lit
              " See https://vs.hn/appuio-cloud-cpu-requests for instructions to adjust the requests."
              end))) in
      lit "Current memory to CPU ratio of " (
        str (show (ratio r)) (
          lit "/core" (
            if node_selector == ""
            then tail
            else lit " for node type " (quoted node_selector tail))))
    where
      with_limit : Message → Message
      with_limit rest = elim limit [
        | none ↦ rest
        | some l ↦ lit " of " (str (show (some l)) (lit "/core" rest))
      ]
