-- ===== src/Webhooks/Pointer/Laws.antt =====
-- Escaping a segment and reading it back.
use Prim.Native.Char.{Char, code}
use Prim.Native.String.{String, [], ◌∷◌, ◌++◌}
use mathlib.Core.List.{[], ◌∷◌}
use text.Mathlib.TextEquality.{Char-path}
use text.Mathlib.TextLemmas.{nil-append, cons-append, append_assoc}
use appuio_cloud_agent.Base.{
  ◌≡◌, refl, ap, ◌∙◌, true, false, inl, inr, arith, Bool-cases, nat_beq, replace_all, split,
  split-join, join, Lacks,
}
use appuio_cloud_agent.Webhooks.Pointer.{escape_json_pointer_segment, unescape_from, tokens}

two_append : (c d : Char) (s : String) → (c ∷ d ∷ []) ++ s ≡ c ∷ d ∷ s
two_append c d s = rw cons-append (rw cons-append (rw nil-append refl))

-- What the two replacements do to one character.
escape_tilde :
    (c : Char) (s : String)
    → nat_beq (code c) b'~' ≡ true
    → escape_json_pointer_segment (c ∷ s) ≡ "~" ∷ ("0" ∷ escape_json_pointer_segment s)
unfolding escape_json_pointer_segment replace_all
escape_tilde c s h =
    rw h (ap (replace_all b'/' "~1") (two_append "~" "0" (replace_all b'~' "~0" s)))

escape_slash :
    (c : Char) (s : String)
    → nat_beq (code c) b'/' ≡ true
    → escape_json_pointer_segment (c ∷ s) ≡ "~" ∷ ("1" ∷ escape_json_pointer_segment s)
unfolding escape_json_pointer_segment replace_all
escape_slash c s h =
    let other : nat_beq (code c) b'~' ≡ false = ground arith in
    rw other (rw h (two_append "~" "1" (escape_json_pointer_segment s)))

escape_other :
    (c : Char) (s : String)
    → nat_beq (code c) b'~' ≡ false
    → nat_beq (code c) b'/' ≡ false
    → escape_json_pointer_segment (c ∷ s) ≡ c ∷ escape_json_pointer_segment s
unfolding escape_json_pointer_segment replace_all
escape_other c s h k = rw h (rw k refl)

escape_nil : escape_json_pointer_segment [] ≡ []
unfolding escape_json_pointer_segment replace_all
escape_nil = refl

unescape_tilde : (s : String) → unescape_from false ("~" ∷ ("0" ∷ s)) ≡ "~" ∷ unescape_from false s
unfolding unescape_from
unescape_tilde s = refl

unescape_slash : (s : String) → unescape_from false ("~" ∷ ("1" ∷ s)) ≡ "/" ∷ unescape_from false s
unfolding unescape_from
unescape_slash s = refl

unescape_other :
    (c : Char) (s : String)
    → nat_beq (code c) b'~' ≡ false
    → unescape_from false (c ∷ s) ≡ c ∷ unescape_from false s
unfolding unescape_from
unescape_other c s h = rw h refl

unescape_nil : unescape_from false [] ≡ []
unfolding unescape_from
unescape_nil = refl

same_head : (c d : Char) {s t : String} → code c ≡ code d → s ≡ t → ◌≡◌ {A = String} (d ∷ s) (c ∷ t)
same_head c d e p = rw (Char-path c d e, p) refl

-- Reading an escaped segment, as RFC 6901 describes it, gives the segment back.
pub unescape_from-escape_json_pointer_segment :
    (s : String) → unescape_from false (escape_json_pointer_segment s) ≡ s
unescape_from-escape_json_pointer_segment [] = ap (unescape_from false) escape_nil ∙ unescape_nil
unescape_from-escape_json_pointer_segment (c ∷ s) = elim (Bool-cases (nat_beq (code c) b'~')) [
  | inl tilde ↦ rw (escape_tilde c s tilde) (
      unescape_tilde _
      ∙ same_head c "~" (ground arith) (unescape_from-escape_json_pointer_segment s))
  | inr other ↦ elim (Bool-cases (nat_beq (code c) b'/')) [
    | inl slash ↦ rw (escape_slash c s slash) (
        unescape_slash _
        ∙ same_head c "/" (ground arith) (unescape_from-escape_json_pointer_segment s))
    | inr plain ↦ rw (escape_other c s other plain) (
        unescape_other c _ other ∙ same_head c c refl (unescape_from-escape_json_pointer_segment s))
  ]
]

-- An escaped segment has no "/".
pub escape_json_pointer_segment-Lacks : (s : String) → Lacks b'/' (escape_json_pointer_segment s)
escape_json_pointer_segment-Lacks [] = rw escape_nil tt
escape_json_pointer_segment-Lacks (c ∷ s) = elim (Bool-cases (nat_beq (code c) b'~')) [
  | inl tilde ↦ rw (escape_tilde c s tilde) (refl, (refl, escape_json_pointer_segment-Lacks s))
  | inr other ↦ elim (Bool-cases (nat_beq (code c) b'/')) [
    | inl slash ↦ rw (escape_slash c s slash) (refl, (refl, escape_json_pointer_segment-Lacks s))
    | inr plain ↦ rw (escape_other c s other plain) (plain, escape_json_pointer_segment-Lacks s)
  ]
]

split-slash : (s : String) → split b'/' ("/" ++ s) ≡ [] ∷ split b'/' s
unfolding split
split-slash s = rw cons-append (rw nil-append refl)

-- A segment that is written as it is read.
abbrev pub IsPlain : String → Type 0
IsPlain s = Lacks b'/' s × (unescape_from false s ≡ s)

-- The pointer that joins segments by "/", the last of them escaped, is read as those segments with
-- the last one as it was.
pub tokens-join :
    (x y s : String)
    → IsPlain x
    → IsPlain y
    → tokens ("/" ++ join "/" (x ∷ y ∷ escape_json_pointer_segment s ∷ [])) ≡ x ∷ y ∷ s ∷ []
unfolding tokens
tokens-join x y s px py = rw split-slash (
    rw
      (split-join "/" x (y ∷ escape_json_pointer_segment s ∷ [])
        (px.0, (py.0, (escape_json_pointer_segment-Lacks s, tt))))
      (rw (px.1, py.1, unescape_from-escape_json_pointer_segment s) refl))

slash_append : (s : String) → ◌≡◌ {A = String} ("/" ++ s) ("/" ∷ s)
slash_append s = rw cons-append (rw nil-append refl)

-- A literal that ends in "/", as the join of its segments.
pub literal_path :
    (x y s : String) → ("/" ++ (x ++ ("/" ++ (y ++ "/")))) ++ s ≡ "/" ++ join "/" (x ∷ y ∷ s ∷ [])
unfolding join
literal_path x y s = simp append_assoc (simp (slash_append, join))

selector_path :
    (s : String) → "/spec/nodeSelector/" ++ s ≡ "/" ++ join "/" ("spec" ∷ "nodeSelector" ∷ s ∷ [])
selector_path s = literal_path "spec" "nodeSelector" s
