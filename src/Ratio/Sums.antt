-- ===== src/Ratio/Sums.antt =====
-- What a ratio has recorded is a sum over the objects, in whichever order they come.
use appuio_cloud_agent.Base.{
  pos, ◌≡◌, sym, ap, ◌∙◌, List, [], ◌∷◌, ◌++◌, ◌==◌, if◌then◌else◌, Bool-cases, inl, inr,
}
use appuio_cloud_agent.Kube.{Decimal}
use appuio_cloud_agent.Ratio.Record.{
  Container, PodSpec, Pod, Ratio, new_ratio, add_containers, record_replicated_pod_spec, record_pod,
}

module _ (dec : Decimal) where
  open dec use {D, new_dec, add, mul, add_comm, add_assoc, zero-add, mul-one}

  abbrev zero : D
  zero = new_dec (pos 0)

  -- Ratios add up field by field.
  abbrev pub plus : Ratio D → Ratio D → Ratio D
  plus r s = record { cpu = add r.cpu s.cpu; memory = add r.memory s.memory }

  -- The requests of one container and of a list of containers.
  abbrev pub container_total : Container D → Ratio D
  container_total c = record { cpu = c.cpu; memory = c.memory }

  abbrev pub containers_total : List (Container D) → Ratio D
  containers_total [] = new_ratio dec
  containers_total (c ∷ cs) = plus (container_total c) (containers_total cs)

  -- The requests of the running pods among the pods.
  abbrev pub running_total : List (Pod D) → Ratio D
  running_total [] = new_ratio dec
  running_total (p ∷ ps) =
      if p.phase == "Running"
      then plus (containers_total p.spec.containers) (running_total ps)
      else running_total ps

  add-zero : (x : D) → add x zero ≡ x
  add-zero x = add_comm x zero ∙ zero-add x

  plus_assoc : (r s t : Ratio D) → plus (plus r s) t ≡ plus r (plus s t)
  plus_assoc r s t = λ i. record {
    cpu = add_assoc r.cpu s.cpu t.cpu i;
    memory = add_assoc r.memory s.memory t.memory i;
  }

  plus_comm : (r s : Ratio D) → plus r s ≡ plus s r
  plus_comm r s =
      λ i. record { cpu = add_comm r.cpu s.cpu i; memory = add_comm r.memory s.memory i }

  plus-zero : (r : Ratio D) → plus r (new_ratio dec) ≡ r
  plus-zero r = λ i. record { cpu = add-zero r.cpu i; memory = add-zero r.memory i }

  pub zero-plus : (r : Ratio D) → plus (new_ratio dec) r ≡ r
  zero-plus r = λ i. record { cpu = zero-add r.cpu i; memory = zero-add r.memory i }

  add_containers-eq :
      (cs : List (Container D)) (r : Ratio D)
      → add_containers dec cs r ≡ plus r (containers_total cs)
  unfolding add_containers
  add_containers-eq [] r = sym (plus-zero r)
  add_containers-eq (c ∷ cs) r =
      add_containers-eq cs (plus r (container_total c))
      ∙ plus_assoc r (container_total c) (containers_total cs)

  record_one-eq :
      (spec : PodSpec D) (r : Ratio D)
      → record_replicated_pod_spec dec (pos 1) spec r ≡ plus r (containers_total spec.containers)
  unfolding record_replicated_pod_spec
  record_one-eq spec r =
      let total = add_containers dec spec.containers (new_ratio dec) in
      let e : total ≡ containers_total spec.containers =
        add_containers-eq spec.containers (new_ratio dec) ∙ zero-plus _ in
      ap (plus r) (λ i. record { cpu = mul-one total.cpu i; memory = mul-one total.memory i })
      ∙ ap (plus r) e

  -- `RecordPod` adds the requests of all containers of the pods that are running, and of no others.
  pub record_pod-eq :
      (pods : List (Pod D)) (r : Ratio D) → record_pod dec pods r ≡ plus r (running_total pods)
  unfolding record_pod
  record_pod-eq [] r = sym (plus-zero r)
  record_pod-eq (p ∷ ps) r =
      let all = containers_total p.spec.containers in
      elim (Bool-cases (p.phase == "Running")) [
        | inl running ↦ rw running (
            record_pod-eq ps (record_replicated_pod_spec dec (pos 1) p.spec r)
            ∙ ap (λ s. plus s (running_total ps)) (record_one-eq p.spec r)
            ∙ plus_assoc r all (running_total ps))
        | inr other ↦ rw other (record_pod-eq ps r)
      ]

  running_total-append :
      (ps qs : List (Pod D)) → running_total (ps ++ qs) ≡ plus (running_total ps) (running_total qs)
  running_total-append [] qs = sym (zero-plus (running_total qs))
  running_total-append (p ∷ ps) qs = elim (Bool-cases (p.phase == "Running")) [
    | inl running ↦ rw running (
        ap (plus (containers_total p.spec.containers)) (running_total-append ps qs)
        ∙ sym
            (plus_assoc (containers_total p.spec.containers) (running_total ps) (running_total qs)))
    | inr other ↦ rw other (running_total-append ps qs)
  ]

  -- Two batches of pods are recorded to the same ratio in either order.
  pub record_pod-swap :
      (ps qs : List (Pod D)) (r : Ratio D)
      → record_pod dec (ps ++ qs) r ≡ record_pod dec (qs ++ ps) r
  record_pod-swap ps qs r =
      record_pod-eq (ps ++ qs) r
      ∙ ap (plus r) (
          running_total-append ps qs
          ∙ plus_comm (running_total ps) (running_total qs)
          ∙ sym (running_total-append qs ps))
      ∙ sym (record_pod-eq (qs ++ ps) r)
