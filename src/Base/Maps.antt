-- ===== src/Base/Maps.antt =====
-- Go maps with string keys, as association lists in the order in which a `range` over the map
-- visits them. A theorem about every such list holds for every order of iteration.
use Prim.Native.String.{String}
use mathlib.Core.Path.{◌≡◌, refl}
use mathlib.Core.Logic.{◌≢◌}
use mathlib.Core.Option.{Option, none, some}
use mathlib.Core.List.{List, [], ◌∷◌}
use native.Mathlib.Omega.{arith}
use text.Mathlib.Text.{◌==◌}
use text.Mathlib.TextEquality.{eq_iff}
use appuio_cloud_agent.Base.Logic.{if◌then◌else◌}

abbrev pub Dict {ℓ} : Type ℓ → Type ℓ
Dict V = List (String × V)

module _ {ℓ} {V : Type ℓ} where
  -- `v, ok := m[k]`
  abbrev pub lookup : String → Dict V → Option V
  lookup k [] = none
  lookup k ((j, v) ∷ m) = if j == k then some v else lookup k m

  -- `m[k] = v`
  abbrev pub insert : String → V → Dict V → Dict V
  insert k v [] = (k, v) ∷ []
  insert k v ((j, w) ∷ m) = if j == k then (k, v) ∷ m else (j, w) ∷ insert k v m

  -- `delete(m, k)`
  abbrev pub erase : String → Dict V → Dict V
  erase k [] = []
  erase k ((j, w) ∷ m) = if j == k then m else (j, w) ∷ erase k m

  abbrev pub keys : Dict V → List String
  keys [] = []
  keys ((j, _) ∷ m) = j ∷ keys m

  pub lookup-insert :
      (k j : String) (v : V) (m : Dict V)
      → lookup j (insert k v m) ≡ (if k == j then some v else lookup j m)
  lookup-insert k j v [] = refl
  lookup-insert k j v ((i, w) ∷ m) =
      ground (arith, eq_iff k j, eq_iff i k, eq_iff i j, lookup-insert k j v m)

  pub lookup-erase_ne : (k j : String) (m : Dict V) → k ≢ j → lookup j (erase k m) ≡ lookup j m
  lookup-erase_ne k j [] h = refl
  lookup-erase_ne k j ((i, w) ∷ m) h =
      ground (arith, eq_iff k j, eq_iff i k, eq_iff i j, lookup-erase_ne k j m h)

-- `m[k]` on a map of strings: the zero value where the key is missing.
abbrev pub or_empty : Option String → String
or_empty none = ""
or_empty (some v) = v

abbrev pub index : String → Dict String → String
index k m = or_empty (lookup k m)

-- No key is listed twice, as in every Go map.
abbrev pub IsMap {ℓ} : {V : Type ℓ} → Dict V → Type ℓ
IsMap [] = Unit
IsMap ((k, _) ∷ m) = (lookup k m ≡ none) × IsMap m
