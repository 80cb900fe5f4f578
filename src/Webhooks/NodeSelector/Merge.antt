-- ===== src/Webhooks/NodeSelector/Merge.antt =====
-- The operations of the patch, applied to a node selector.
use Prim.Native.String.{◌++◌ as str_append}
use appuio_cloud_agent.Base.{
  String, ◌≡◌, refl, sym, ◌∙◌, ap, arith, List, [], ◌∷◌, Option, none, some, Dict, lookup, insert,
  lookup-insert, IsMap, eq_iff, Option-cases, inl, inr,
}
use appuio_cloud_agent.Webhooks.Pointer.{
  escape_json_pointer_segment, unescape_from, tokens, apply_add, apply_patch,
}
use appuio_cloud_agent.Webhooks.Pointer.Laws.{IsPlain, literal_path, tokens-join}
use appuio_cloud_agent.Webhooks.NodeSelector.{add_label, missing_labels}

abbrev pub prefix : List String
prefix = "spec" ∷ "nodeSelector" ∷ []

segments-IsPlain : IsPlain "spec" × IsPlain "nodeSelector"
unfolding unescape_from
segments-IsPlain = ((ground arith, refl), (ground arith, refl))

add_label-tokens :
    (k : String)
    → tokens (str_append "/spec/nodeSelector/" (escape_json_pointer_segment k))
      ≡ "spec" ∷ "nodeSelector" ∷ k ∷ []
add_label-tokens k =
    ap tokens (literal_path "spec" "nodeSelector" (escape_json_pointer_segment k))
    ∙ tokens-join "spec" "nodeSelector" k segments-IsPlain.0 segments-IsPlain.1

add_label-apply :
    (k v : String) (m : Dict String)
    → apply_add prefix (add_label k v) (some m) ≡ some (insert k v m)
unfolding apply_add
add_label-apply k v m = rw (add_label-tokens k) refl

-- The first value that is there.
abbrev pub first : Option String → Option String → Option String
first (some v) other = some v
first none other = other

-- Which of the values of a default and of the selector so far a key gets, by whether the selector
-- had the key at first.
abbrev pick : Option String → Option String → Option String → Option String
pick none default old = first default old
pick (some _) default old = old

-- A label is set where the selector did not have it at first.
abbrev set_missing : Option String → String → String → Dict String → Dict String
set_missing none k v m = insert k v m
set_missing (some _) k v m = m

-- The selector once the labels that `sel` lacks have been set.
merged : Dict String → Dict String → Dict String → Dict String
merged sel [] m = m
merged sel ((k, v) ∷ d) m = merged sel d (set_missing (lookup k sel) k v m)

missing_labels-apply :
    (sel d m : Dict String)
    → apply_patch prefix (missing_labels sel d) (some m) ≡ some (merged sel d m)
unfolding missing_labels apply_patch merged
missing_labels-apply sel [] m = refl
missing_labels-apply sel ((k, v) ∷ d) m = elim (Option-cases (lookup k sel)) [
  | inl absent ↦
      rw absent
        (rw (add_label-apply k v m, apply_patch) (missing_labels-apply sel d (insert k v m)))
  | inr (w, present) ↦ rw present (missing_labels-apply sel d m)
]

pick-none : (o old : Option String) → pick o none old ≡ old
pick-none none old = refl
pick-none (some _) old = refl

lookup-merged :
    (sel : Dict String) (j : String) (d m : Dict String)
    → IsMap d
    → lookup j (merged sel d m) ≡ pick (lookup j sel) (lookup j d) (lookup j m)
unfolding merged
lookup-merged sel j [] m h = sym (pick-none (lookup j sel) (lookup j m))
lookup-merged sel j ((k, v) ∷ d) m h = elim (Option-cases (lookup k sel)) [
  | inl absent ↦
      rw absent (
        ground (arith, eq_iff k j, lookup-insert k j v m, lookup-merged sel j d (insert k v m) h.1))
  | inr (w, present) ↦ rw present (ground (arith, eq_iff k j, lookup-merged sel j d m h.1))
]

pick_self : (o default : Option String) → pick o default o ≡ first o default
pick_self none none = refl
pick_self none (some _) = refl
pick_self (some _) default = refl

abbrev pub lookup_in : String → Option (Dict String) → Option String
lookup_in k none = none
lookup_in k (some m) = lookup k m

-- A patched selector keeps its labels and gains the defaults that it lacked.
pub missing_labels-first :
    (sel d : Dict String) (j : String)
    → IsMap d
    → lookup_in j (apply_patch prefix (missing_labels sel d) (some sel))
      ≡ first (lookup j sel) (lookup j d)
missing_labels-first sel d j h =
    rw (missing_labels-apply sel d sel)
      (lookup-merged sel j d sel h ∙ pick_self (lookup j sel) (lookup j d))
