-- ===== src/Ratio/Limits.antt =====
-- limits/limits.go. `LabelSelectorAsSelector` and the selector's `Matches` are the parameter.
use appuio_cloud_agent.Base.{
  String, Bool, true, false, List, [], ◌∷◌, Option, none, Dict, if◌then◌else◌, ◌≡◌, refl, ◌++◌, All,
}
use appuio_cloud_agent.Kube.{Result, ok, err}

pub record Limit (S : Type 0) (D : Type 0) : Type 0 where
  pub node_selector : S
  pub limit : Option D

-- What a selector says, where one that is not valid applies to nothing.
abbrev pub decide : Dict String → Result (Dict String → Bool) → Bool
decide node_selector (ok matches) = matches node_selector
decide node_selector (err _) = false

module _ {S : Type 0} {D : Type 0} (as_selector : S → Result (Dict String → Bool)) where
  -- One limit: its own, if its selector is valid and matches, and what the rest gives otherwise.
  abbrev or_later : Result (Dict String → Bool) → Dict String → Option D → Option D → Option D
  or_later (err e) node_selector own later = later
  or_later (ok matches) node_selector own later = if matches node_selector then own else later

  unfoldable pub get_limit_for_node_selector : List (Limit S D) → Dict String → Option D
  get_limit_for_node_selector [] node_selector = none
  get_limit_for_node_selector (l ∷ ls) node_selector =
      let later = get_limit_for_node_selector ls node_selector in
      or_later (as_selector l.node_selector) node_selector l.limit later

  -- Whether a limit applies, as a Boolean.
  abbrev pub applies : Dict String → Limit S D → Bool
  applies node_selector l = decide node_selector (as_selector l.node_selector)

  abbrev IsSkipped : Dict String → Limit S D → Type 0
  IsSkipped node_selector l = applies node_selector l ≡ false

  or_later-eq :
      (a : Result (Dict String → Bool)) (node_selector : Dict String) (own later : Option D)
      → or_later a node_selector own later ≡ (if decide node_selector a then own else later)
  or_later-eq (ok matches) node_selector own later = refl
  or_later-eq (err e) node_selector own later = refl

  -- The limit for a node selector is that of the first limit in the list whose selector is valid and
  -- matches: limits before it, invalid or not matching, and limits after it do not count.
  pub get_limit_for_node_selector-first :
      (before after : List (Limit S D)) (l : Limit S D) (node_selector : Dict String)
      → All (IsSkipped node_selector) before
      → applies node_selector l ≡ true
      → get_limit_for_node_selector (before ++ l ∷ after) node_selector ≡ l.limit
  unfolding get_limit_for_node_selector
  get_limit_for_node_selector-first [] after l node_selector skipped hit =
      rw
        (
          or_later-eq (as_selector l.node_selector) node_selector l.limit
              (get_limit_for_node_selector after node_selector),
          hit,
        )
        refl
  get_limit_for_node_selector-first (b ∷ before) after l node_selector skipped hit =
      rw
        (
          or_later-eq (as_selector b.node_selector) node_selector b.limit
              (get_limit_for_node_selector (before ++ l ∷ after) node_selector),
          skipped.0,
        )
        (get_limit_for_node_selector-first before after l node_selector skipped.1 hit)

  -- Without a limit that applies there is none.
  pub get_limit_for_node_selector-none :
      (ls : List (Limit S D)) (node_selector : Dict String)
      → All (IsSkipped node_selector) ls
      → get_limit_for_node_selector ls node_selector ≡ none
  unfolding get_limit_for_node_selector
  get_limit_for_node_selector-none [] node_selector skipped = refl
  get_limit_for_node_selector-none (b ∷ ls) node_selector skipped =
      rw
        (
          or_later-eq (as_selector b.node_selector) node_selector b.limit
              (get_limit_for_node_selector ls node_selector),
          skipped.0,
        )
        (get_limit_for_node_selector-none ls node_selector skipped.1)
