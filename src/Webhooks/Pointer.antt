-- ===== src/Webhooks/Pointer.antt =====
-- JSON pointers: `escapeJSONPointerSegment` of webhooks/pod_node_selector_mutator.go, and, from RFC
-- 6901 and RFC 6902, how a pointer is read and what the operation "add" does to a map of strings.
pub mod Laws
use Prim.Native.Char.{Char, code}
use Prim.Native.String.{String, [], ◌∷◌}
use mathlib.Core.List.{List, [], ◌∷◌, map, tail}
use appuio_cloud_agent.Base.{
  Bool, true, false, Option, none, some, Dict, insert, ◌==◌, if◌then◌else◌, nat_beq, replace_all,
  split,
}
use appuio_cloud_agent.Kube.{Value, string, string_map, Operation}

unfoldable pub escape_json_pointer_segment : String → String
escape_json_pointer_segment s = replace_all b'/' "~1" (replace_all b'~' "~0" s)

-- RFC 6901: "~1" stands for "/" and "~0" for "~". The Boolean says that a "~" came just before.
unfoldable pub unescape_from : Bool → String → String
unescape_from false [] = []
unescape_from true [] = "~" ∷ []
unescape_from false (c ∷ s) =
    let plain : String = c ∷ unescape_from false s in
    let after : String = unescape_from true s in if nat_beq (code c) b'~' then after else plain
unescape_from true (c ∷ s) =
    let rest : String = unescape_from false s in
    if nat_beq (code c) b'0'
    then "~" ∷ rest
    else (if nat_beq (code c) b'1' then "/" ∷ rest else "~" ∷ c ∷ rest)

-- The reference tokens of a pointer.
unfoldable pub tokens : String → List String
tokens path = map (unescape_from false) (tail (split b'/' path))

-- The tokens that are left behind a prefix.
abbrev pub strip : List String → List String → Option (List String)
strip [] ts = some ts
strip (p ∷ ps) [] = none
strip (p ∷ ps) (t ∷ ts) = let rest = strip ps ts in if p == t then rest else none

-- The operation "add" on a map of strings that stands at the prefix: it sets the whole map, or one
-- member of a map that is there. Other operations do not touch the map.
abbrev pub add_at : Option (List String) → Value → Option (Dict String) → Option (Dict String)
add_at (some []) (string_map m) old = some m
add_at (some (k ∷ [])) (string v) (some m) = some (insert k v m)
add_at _ _ old = old

unfoldable pub apply_add : List String → Operation → Option (Dict String) → Option (Dict String)
apply_add prefix op old = add_at (strip prefix (tokens op.path)) op.value old

unfoldable pub apply_patch :
    List String → List Operation → Option (Dict String) → Option (Dict String)
apply_patch prefix [] old = old
apply_patch prefix (op ∷ ops) old = apply_patch prefix ops (apply_add prefix op old)
