-- ===== src/Base/Strings.antt =====
-- Go's `strings` and `strconv`, over the code points of native strings.
use Prim.Native.Char.{Char, code}
use Prim.Native.String.{String, [], ◌∷◌, ◌++◌}
use Prim.Native.Nat.{ℕ}
use mathlib.Core.Path.{◌≡◌, refl, ap, ◌∙◌}
use mathlib.Core.Bool.{Bool, true, false, ◌||◌}
use mathlib.Core.List.{List, [], ◌∷◌}
use mathlib.Core.Option.{Option, none, some}
use native.Mathlib.Omega.{arith}
use text.Mathlib.Text.{◌==◌}
use text.Mathlib.TextLemmas.{nil-append, cons-append}
use appuio_cloud_agent.Base.Logic.{if◌then◌else◌, is_some}
use appuio_cloud_agent.Base.Int.{nat_beq, nat_beq_refl}
use appuio_cloud_agent.Base.Lists.{All}

-- `strings.ReplaceAll(s, old, new)` for an `old` of one character.
unfoldable pub replace_all : ℕ → String → String → String
replace_all old new [] = []
replace_all old new (c ∷ s) =
    let rest = replace_all old new s in if nat_beq (code c) old then new ++ rest else c ∷ rest

abbrev pub push_head : Char → List String → List String
push_head c [] = (c ∷ []) ∷ []
push_head c (w ∷ ws) = (c ∷ w) ∷ ws

-- `strings.Split(s, sep)` for a `sep` of one character.
unfoldable pub split : ℕ → String → List String
split sep [] = [] ∷ []
split sep (c ∷ s) =
    let rest = split sep s in if nat_beq (code c) sep then [] ∷ rest else push_head c rest

abbrev pub cut_after : Char → Option (String × String) → Option (String × String)
cut_after c none = none
cut_after c (some (before, after)) = some (c ∷ before, after)

-- `strings.Cut(s, sep)` for a `sep` of one character; `none` if it is not found.
unfoldable pub cut : ℕ → String → Option (String × String)
cut sep [] = none
cut sep (c ∷ s) =
    let rest = cut sep s in if nat_beq (code c) sep then some ([], s) else cut_after c rest

-- The text after the prefix, `none` if it does not start so: `strings.HasPrefix` and
-- `strings.TrimPrefix`.
unfoldable pub cut_prefix : String → String → Option String
cut_prefix [] s = some s
cut_prefix (c ∷ p) [] = none
cut_prefix (c ∷ p) (d ∷ s) =
    let rest = cut_prefix p s in if nat_beq (code c) (code d) then rest else none

-- `strings.Contains(s, sub)`
unfoldable pub contains_text : String → String → Bool
contains_text sub [] = is_some (cut_prefix sub [])
contains_text sub (c ∷ s) = is_some (cut_prefix sub (c ∷ s)) || contains_text sub s

abbrev is_last : ℕ → Char → String → Bool
is_last sep c [] = nat_beq (code c) sep
is_last sep c (d ∷ s) = false

-- `strings.TrimSuffix(s, sep)` for a `sep` of one character.
unfoldable pub trim_suffix : ℕ → String → String
trim_suffix sep [] = []
trim_suffix sep (c ∷ s) = let rest = trim_suffix sep s in if is_last sep c s then [] else c ∷ rest

-- The text has no such character.
abbrev pub Lacks : ℕ → String → Type 0
Lacks sep [] = Unit
Lacks sep (c ∷ s) = (nat_beq (code c) sep ≡ false) × Lacks sep s

pub split-Lacks : (sep : ℕ) (s : String) → Lacks sep s → split sep s ≡ s ∷ []
unfolding split
split-Lacks sep [] h = refl
split-Lacks sep (c ∷ s) h = rw (h.0, split-Lacks sep s h.1) refl

pub split-append :
    (sep : ℕ) (s : String) (c : Char) (t : String)
    → Lacks sep s
    → nat_beq (code c) sep ≡ true
    → split sep (s ++ (c ∷ t)) ≡ s ∷ split sep t
unfolding split
split-append sep [] c t h e = rw nil-append (rw e refl)
split-append sep (d ∷ s) c t h e = rw cons-append (rw (h.0, split-append sep s c t h.1 e) refl)

pub cut-Lacks : (sep : ℕ) (s : String) → Lacks sep s → cut sep s ≡ none
unfolding cut
cut-Lacks sep [] h = refl
cut-Lacks sep (c ∷ s) h = rw (h.0, cut-Lacks sep s h.1) refl

pub cut-append :
    (sep : ℕ) (s : String) (c : Char) (t : String)
    → Lacks sep s
    → nat_beq (code c) sep ≡ true
    → cut sep (s ++ (c ∷ t)) ≡ some (s, t)
unfolding cut
cut-append sep [] c t h e = rw nil-append (rw e refl)
cut-append sep (d ∷ s) c t h e = rw cons-append (rw (h.0, cut-append sep s c t h.1 e) refl)

pub cut_prefix-append : (p s : String) → cut_prefix p (p ++ s) ≡ some s
unfolding cut_prefix
cut_prefix-append [] s = rw nil-append refl
cut_prefix-append (c ∷ p) s = rw cons-append (rw (nat_beq_refl (code c)) (cut_prefix-append p s))

pub Lacks-append : (sep : ℕ) (s t : String) → Lacks sep s → Lacks sep t → Lacks sep (s ++ t)
Lacks-append sep [] t h k = rw nil-append k
Lacks-append sep (c ∷ s) t h k = rw cons-append (h.0, Lacks-append sep s t h.1 k)

-- `strings.Join(xs, sep)` for a `sep` of one character.
unfoldable pub join : Char → List String → String
join sep [] = []
join sep (x ∷ []) = x
join sep (x ∷ y ∷ ys) = x ++ (sep ∷ join sep (y ∷ ys))

-- A separator between texts that lack it is found again.
pub split-join :
    (sep : Char) (x : String) (xs : List String)
    → All (Lacks (code sep)) (x ∷ xs)
    → split (code sep) (join sep (x ∷ xs)) ≡ x ∷ xs
unfolding join
split-join sep x [] h = split-Lacks (code sep) x h.0
split-join sep x (y ∷ ys) h =
    split-append (code sep) x sep (join sep (y ∷ ys)) h.0 (ground arith)
    ∙ ap (λ r. x ∷ r) (split-join sep y ys h.1)

-- `strconv.ParseBool`
unfoldable pub parse_bool : String → Option Bool
parse_bool s =
    if s == "1" || s == "t" || s == "T" || s == "TRUE" || s == "true" || s == "True"
    then some true
    else (if s == "0" || s == "f" || s == "F" || s == "FALSE" || s == "false" || s == "False"
        then some false
        else none)
