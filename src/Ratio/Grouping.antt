-- ===== src/Ratio/Grouping.antt =====
-- ratio/fetcher.go: which pods a ratio of `FetchRatios` counts.
use appuio_cloud_agent.Base.{
  String, Bool, true, false, ◌≡◌, refl, ap, ◌∙◌, List, [], ◌∷◌, Option, none, some, Dict, lookup,
  insert, lookup-insert, ◌==◌, eq_iff, if◌then◌else◌, keep,
}
use appuio_cloud_agent.Kube.{Decimal, Result, ok}
use appuio_cloud_agent.Ratio.Record.{Pod, Ratio, new_ratio, record_pod}
use appuio_cloud_agent.Ratio.Fetcher.{Fetcher, or_new, group}
use appuio_cloud_agent.Ratio.Sums.{running_total, record_pod-eq, zero-plus}

module _ (dec : Decimal) (show_set : Dict String → String) where
  open dec use {D}

  -- The pods whose node selector prints as the key.
  abbrev pub pods_of : String → List (Pod D) → List (Pod D)
  pods_of k = keep (λ p. show_set p.spec.node_selector == k)

  -- The sum of the requests of the running ones among the pods; none without pods.
  abbrev pub total_of : List (Pod D) → Option (Ratio D)
  total_of [] = none
  total_of (p ∷ ps) = some (running_total dec (p ∷ ps))

  abbrev recorded : Option (Ratio D) → List (Pod D) → Option (Ratio D)
  recorded o [] = o
  recorded o (p ∷ ps) = some (record_pod dec (p ∷ ps) (or_new dec show_set o))

  recorded-cons :
      (p : Pod D) (o : Option (Ratio D)) (ps : List (Pod D))
      → recorded (some (record_pod dec (p ∷ []) (or_new dec show_set o))) ps ≡ recorded o (p ∷ ps)
  unfolding record_pod
  recorded-cons p o [] = refl
  recorded-cons p o (q ∷ qs) = refl

  recorded-total : (ps : List (Pod D)) → recorded none ps ≡ total_of ps
  recorded-total [] = refl
  recorded-total (p ∷ ps) = ap some (record_pod-eq dec (p ∷ ps) (new_ratio dec) ∙ zero-plus dec _)

  recorded-branch :
      (b : Bool) (p : Pod D) (o o' : Option (Ratio D)) (ps : List (Pod D))
      → (b ≡ true → o' ≡ o)
      → recorded (if b then some (record_pod dec (p ∷ []) (or_new dec show_set o')) else o) ps
        ≡ recorded o (elim b [ true ↦ p ∷ ps | false ↦ ps ])
  recorded-branch true p o o' ps same = rw (same refl) (recorded-cons p o ps)
  recorded-branch false p o o' ps same = refl

  group-recorded :
      (k : String) (pods : List (Pod D)) (ratios : Dict (Ratio D))
      → lookup k (group dec show_set pods ratios) ≡ recorded (lookup k ratios) (pods_of k pods)
  unfolding group
  group-recorded k [] ratios = refl
  group-recorded k (p ∷ ps) ratios =
      let kp = show_set p.spec.node_selector in
      let r = record_pod dec (p ∷ []) (or_new dec show_set (lookup kp ratios)) in
      group-recorded k ps (insert kp r ratios)
      ∙ ap (λ o. recorded o (pods_of k ps)) (lookup-insert kp k r ratios)
      ∙ recorded-branch (kp == k) p (lookup k ratios) (lookup kp ratios) (pods_of k ps)
          (λ same. ap (λ s. lookup s ratios) ((eq_iff kp k).0 same))

  -- The map that the loop over the pods builds has the key of every pod's node selector and no
  -- other, and holds there the sum of the requests of the running pods with that key.
  pub lookup-group :
      (k : String) (pods : List (Pod D))
      → lookup k (group dec show_set pods []) ≡ total_of (pods_of k pods)
  lookup-group k pods = group-recorded k pods [] ∙ recorded-total (pods_of k pods)

  -- What `fetch_ratios` returns for a namespace with these pods.
  abbrev pub IsGrouped : List (Pod D) → Result (Dict (Ratio D)) → Type 0
  IsGrouped pods result =
      (ratios : Dict (Ratio D)) × (result ≡ ok ratios)
      × ((k : String) → lookup k ratios ≡ total_of (pods_of k pods))
