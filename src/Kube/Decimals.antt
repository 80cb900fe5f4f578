-- ===== src/Kube/Decimals.antt =====
-- `gopkg.in/inf.v0`: decimals of any size, as an interface. A `resource.Quantity` is the decimal that
-- `AsDec` returns.
use Prim.Native.Nat.{Ordering}
use appuio_cloud_agent.Base.{
  ℕ, ◌+◌, ◌*◌, ◌/◌, ◌%◌, ◌<◌, ℤ, pos, ◌+ℤ◌, ◌*ℤ◌, compare_ℤ, ◌≡◌, refl, +ℤ_comm, +ℤ_assoc, zero-+ℤ,
  *ℤ-one, ltb, nat_beq, arith, if◌then◌else◌,
}

-- `RoundHalfEven` and `RoundUp`, which rounds away from 0.
pub data Rounder : Type 0 where
  half_even up : Rounder

-- The quotient of whole numbers, rounded to a whole number.
abbrev pub rounded : Rounder → ℕ → ℕ → ℕ
rounded half_even m c =
    if ltb (m % c * 2) c
    then m / c
    else (if ltb c (m % c * 2) then m / c + 1 else m / c + m / c % 2)
rounded up m c = if nat_beq (m % c) 0 then m / c else m / c + 1

pub record Decimal : Type 1 where
  pub D : Type 0
  -- `NewDec(n, 0)`
  pub new_dec : ℤ → D
  pub add : D → D → D
  pub mul : D → D → D
  pub cmp : D → D → Ordering
  -- `QuoRound` at the scale 0
  pub quo_round : D → D → Rounder → D
  pub add_comm : (x y : D) → add x y ≡ add y x
  pub add_assoc : (x y z : D) → add (add x y) z ≡ add x (add y z)
  pub zero-add : (x : D) → add (new_dec (pos 0)) x ≡ x
  pub mul-one : (x : D) → mul x (new_dec (pos 1)) ≡ x
  -- on whole numbers the operations are those of whole numbers
  pub cmp-new_dec : (a b : ℤ) → cmp (new_dec a) (new_dec b) ≡ compare_ℤ a b
  pub mul-new_dec : (a b : ℕ) → mul (new_dec (pos a)) (new_dec (pos b)) ≡ new_dec (pos (a * b))
  pub quo_round-new_dec :
      (a b : ℕ) (r : Rounder)
      → 0 < b
      → quo_round (new_dec (pos a)) (new_dec (pos b)) r ≡ new_dec (pos (rounded r a b))

-- Integers, as the decimals of scale 0.
abbrev quo_round_ℤ : ℤ → ℤ → Rounder → ℤ
quo_round_ℤ (pos a) (pos b) r = pos (rounded r a b)
quo_round_ℤ _ _ r = pos 0

pub mul-pos : (a b : ℕ) → pos a *ℤ pos b ≡ pos (a * b)
unfolding ◌*ℤ◌
mul-pos a b = ground arith

abbrev pub integers : Decimal
integers = record {
  D = ℤ;
  new_dec = λ n. n;
  add = ◌+ℤ◌;
  mul = ◌*ℤ◌;
  cmp = compare_ℤ;
  quo_round = quo_round_ℤ;
  add_comm = +ℤ_comm;
  add_assoc = +ℤ_assoc;
  zero-add = zero-+ℤ;
  mul-one = *ℤ-one;
  cmp-new_dec = λ a b. refl;
  mul-new_dec = mul-pos;
  quo_round-new_dec = λ a b r h. refl;
}
