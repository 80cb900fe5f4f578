-- ===== src/Ratio/Rounding.antt =====
-- ratio/ratio.go: what `Ratio` and `Below` compute on whole numbers of bytes and cores.
use appuio_cloud_agent.Base.{
  compare_ℤ, ℕ, zero, suc, ◌+◌, ◌*◌, ◌/◌, ◌%◌, ◌≤◌, ◌<◌, pos, ◌≡◌, ap, ◌∙◌, Bool-cases, inl, inr,
  true, some, ltb, arith,
}
use mathlib.Core.Path.{subst}
use native.Mathlib.Omega.{div_any}
use native.Mathlib.Nat.{mod-lt}
use appuio_cloud_agent.Kube.{Decimal, half_even, up, rounded}
use appuio_cloud_agent.Ratio.Record.{ratio, mib, is_gt}

-- Within a half of the quotient of `m` by `c`.
abbrev pub IsNear : ℕ → ℕ → ℕ → Type 0
IsNear m c x = (m * 2 ≤ x * c * 2 + c) × (x * c * 2 ≤ m * 2 + c)

down-IsNear : (m c q r : ℕ) → c * q + r ≡ m → r * 2 ≤ c → IsNear m c q
down-IsNear m c q r e l = (omega arith, omega arith)

up-IsNear : (m c q r : ℕ) → c * q + r ≡ m → r < c → c ≤ r * 2 → IsNear m c (q + 1)
up-IsNear m c q r e l h = (omega arith, omega arith)

tie-IsNear : (m c q r d : ℕ) → c * q + r ≡ m → r < c → r * 2 ≡ c → d < 2 → IsNear m c (q + d)
tie-IsNear m c q r zero e l t h =
    subst (IsNear m c) (omega arith) (down-IsNear m c q r e (omega arith))
tie-IsNear m c q r (suc zero) e l t h = up-IsNear m c q r e l (omega arith)
tie-IsNear m c q r (suc (suc d)) e l t h = absurd (omega arith)

half_even-IsNear : (m c : ℕ) → 0 < c → IsNear m c (rounded half_even m c)
half_even-IsNear m c h =
    let q = m / c in
    let r = m % c in
    let e = div_any m c in
    let l = mod-lt m h in
    elim (Bool-cases (ltb (r * 2) c)) [
      | inl less ↦ rw less (down-IsNear m c q r e (ground arith))
      | inr more ↦ elim (Bool-cases (ltb c (r * 2))) [
        | inl over ↦ rw (more, over) (up-IsNear m c q r e l (ground arith))
        | inr tie ↦ rw (more, tie) (tie-IsNear m c q r (q % 2) e l (ground arith) (omega arith))
      ]
    ]

up-bounds :
    (q : ℕ) → (q ≤ rounded up q 1048576 * 1048576) × (rounded up q 1048576 * 1048576 < q + 1048576)
up-bounds q = ground arith

module _ (dec : Decimal) where
  open dec use {D, new_dec}

  gt_zero : (c : ℕ) → 0 < c → is_gt (compare_ℤ (pos c) (pos 0)) ≡ true
  gt_zero c h = ground arith

  ratio-whole :
      (m c : ℕ)
      → 0 < c
      → ratio dec (record { cpu = new_dec (pos c); memory = new_dec (pos m) })
        ≡ some (new_dec (pos (rounded up (rounded half_even m c) 1048576 * 1048576)))
  unfolding ratio
  ratio-whole m c h =
      let q = rounded half_even m c in
      rw (dec.cmp-new_dec (pos c) (pos 0), gt_zero c h)
        (ap some (
          ap (λ x. dec.mul (dec.quo_round x (new_dec mib) up) (new_dec mib))
            (dec.quo_round-new_dec m c half_even h)
          ∙ ap (λ x. dec.mul x (new_dec mib)) (dec.quo_round-new_dec q 1048576 up (omega arith))
          ∙ dec.mul-new_dec (rounded up q 1048576) 1048576))

  -- When whole numbers of cores, at least one, and of bytes are recorded, the ratio is a whole number
  -- of MiB: the bytes for each core, rounded to the nearest byte, and rounded up from there.
  pub ratio-mib :
      (m c : ℕ)
      → 0 < c
      → (q : ℕ) × IsNear m c q
        × (k : ℕ) × (ratio dec (record { cpu = new_dec (pos c); memory = new_dec (pos m) })
            ≡ some (new_dec (pos (k * 1048576))))
        × (q ≤ k * 1048576)
        × (k * 1048576 < q + 1048576)
  ratio-mib m c h =
      let q = rounded half_even m c in
      let k = rounded up q 1048576 in
      let (lower, upper) = up-bounds q in
      (q, half_even-IsNear m c h, k, ratio-whole m c h, lower, upper)
