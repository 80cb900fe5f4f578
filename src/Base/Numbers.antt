-- ===== src/Base/Numbers.antt =====
-- `strconv.Atoi` on a 64-bit machine; `none` is its error.
use Prim.Native.Char.{code}
use Prim.Native.Nat.{ℕ, ◌+◌, ◌-◌, ◌*◌, ◌^◌}
use Prim.Native.String.{String, [], ◌∷◌}
use mathlib.Core.Bool.{◌&&◌}
use mathlib.Core.Option.{Option, none, some}
use appuio_cloud_agent.Base.Logic.{if◌then◌else◌}
use appuio_cloud_agent.Base.Int.{ℤ, pos, negsuc, leb, ltb, nat_beq}

-- The digits that are left, behind a number that has been read.
unfoldable pub digits : ℕ → String → Option ℕ
digits n [] = some n
digits n (c ∷ s) =
    let rest = digits (n * 10 + (code c - 48)) s in
    if leb 48 (code c) && leb (code c) 57 then rest else none

unfoldable pub magnitude : String → Option ℕ
unfolding digits
magnitude [] = none
magnitude (c ∷ s) = digits 0 (c ∷ s)

abbrev pub int_limit : ℕ
int_limit = 2 ^ 63

abbrev pub positive : Option ℕ → Option ℤ
positive none = none
positive (some n) = if ltb n int_limit then some (pos n) else none

abbrev pub negative : Option ℕ → Option ℤ
negative none = none
negative (some n) =
    if leb n int_limit then some (if nat_beq n 0 then pos 0 else negsuc (n - 1)) else none

unfoldable pub atoi : String → Option ℤ
unfolding magnitude
atoi [] = none
atoi (c ∷ s) =
    if nat_beq (code c) 45
    then negative (magnitude s)
    else (if nat_beq (code c) 43 then positive (magnitude s) else positive (magnitude (c ∷ s)))
