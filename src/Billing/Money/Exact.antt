-- ===== src/Billing/Money/Exact.antt =====
-- apps/billing/money.py: the digits that the division is carried to.
use shiftlush_api.Prelude.{
  ℕ, zero, suc, ◌+◌, ◌*◌, ◌/◌, ◌%◌, ◌^◌, ◌≤◌, ◌<◌, ◌≡◌, inl, inr, Bool-cases, ltb, leb, ◌==◌,
  ==_iff, leb→le, not_leb→lt, ltb→lt, not_ltb→le, some, arith,
}
use native.Mathlib.Nat.{
  div-add-mod, mod-lt, div-mul-le_self, lt-div-mul-add, div-eq_of_lt-le, mul-le-mul_left,
  mul-le-mul, div-le_self, pow-le-pow_right, pow-succ',
}
use shiftlush_api.Ledger.Decimal.{half_even}
use shiftlush_api.Billing.Money.{
  half_up, places_from, places_of, divide, round_half_up, prorated_amount,
}

tie :
    (n d : ℕ)
    → 2 * (n % d) ≡ d
    → d * (n / d) + n % d ≡ n
    → (2 * n ≤ 2 * (d * (n / d + n / d % 2)) + d) × (2 * (d * (n / d + n / d % 2)) ≤ 2 * n + d)
tie n d half whole = elim (Bool-cases (n / d % 2 == 0)) [
  | inl e ↦ let even = (==_iff (n / d % 2) 0).0 e in rw (even) (omega arith, omega arith)
  | inr e ↦ let odd : n / d % 2 ≡ 1 = ground arith in rw (odd) (omega arith, omega arith)
]

-- The nearest whole number is at most half a unit away.
half_even-near :
    (n d : ℕ)
    → 1 ≤ d
    → (2 * n ≤ 2 * (d * half_even n d) + d) × (2 * (d * half_even n d) ≤ 2 * n + d)
half_even-near n d pos =
    let whole = div-add-mod n d in
    let rest = mod-lt n pos in
    elim (Bool-cases (ltb (2 * (n % d)) d)) [
      | inl below ↦ rw (below) (omega (arith, ltb→lt _ _ below), omega (arith, ltb→lt _ _ below))
      | inr e ↦ elim (Bool-cases (ltb d (2 * (n % d)))) [
        | inl above ↦
            rw (e, above) (omega (arith, ltb→lt _ _ above), omega (arith, ltb→lt _ _ above))
        | inr f ↦
            let half : 2 * (n % d) ≡ d = omega (arith, not_ltb→le _ _ e, not_ltb→le _ _ f) in
            rw (e, f) (tie n d half whole)
      ]
    ]

half_up-bounds :
    (n d : ℕ)
    → 1 ≤ d
    → (half_up n d * (2 * d) ≤ 2 * n + d) × (2 * n + d < half_up n d * (2 * d) + 2 * d)
half_up-bounds n d pos = (div-mul-le_self (2 * n + d) (2 * d), lt-div-mul-add (omega arith))

-- Rounding `n / d` first to `2 * half` units and then to whole ones is rounding it to whole ones,
-- where there are more units than `d`.
rounded_twice :
    (n d half : ℕ)
    → 1 ≤ d
    → d < 2 * half
    → half_up (half_even (n * (2 * half)) d) (2 * half) ≡ half_up n d
rounded_twice n d half pos fine =
    let q = half_even (n * (2 * half)) d in
    let m = half_up n d in
    let near = half_even-near (n * (2 * half)) d pos in
    let up = half_up-bounds n d pos in
    div-eq_of_lt-le (2 * (2 * half)) (low q m near.0 up.0) (high q m near.1 up.1)
  where
    low :
        (q m : ℕ)
        → 2 * (n * (2 * half)) ≤ 2 * (d * q) + d
        → m * (2 * d) ≤ 2 * n + d
        → m * (2 * (2 * half)) ≤ 2 * q + 2 * half
    low q m near up = elim (Bool-cases (leb (m * (2 * (2 * half))) (2 * q + 2 * half))) [
      | inl e ↦ leb→le _ _ e
      | inr e ↦
          let over =
            mul-le-mul_left {m = q + half + 1} {n = 2 * m * half} d
              (omega (arith, not_leb→lt _ _ e)) in
          let scaled = mul-le-mul_left half up in absurd (omega arith)
    ]

    high :
        (q m : ℕ)
        → 2 * (d * q) ≤ 2 * (n * (2 * half)) + d
        → 2 * n + d < m * (2 * d) + 2 * d
        → 2 * q + 2 * half < (m + 1) * (2 * (2 * half))
    high q m near up = elim (Bool-cases (ltb (2 * q + 2 * half) ((m + 1) * (2 * (2 * half))))) [
      | inl e ↦ ltb→lt _ _ e
      | inr e ↦
          let over =
            mul-le-mul_left {m = (m + 1) * (2 * half)} {n = q + half} d
              (omega (arith, not_ltb→le _ _ e)) in
          let scaled = mul-le-mul_left half up in absurd (omega arith)
    ]

-- A number below 10^22 needs five places at least to reach 28 digits.
places_from-bound :
    (fuel p n d : ℕ) → 1 ≤ d → n < 10 ^ 22 → 5 ≤ p + fuel → 5 ≤ places_from fuel p n d
unfolding places_from
places_from-bound zero p n d pos small enough = omega arith
places_from-bound (suc fuel) p n d pos small enough =
    elim (Bool-cases (leb (10 ^ 27) (n * 10 ^ p / d))) [
      | inl e ↦
          let reached = leb→le _ _ e in
          let within = div-le_self (n * 10 ^ p) d in
          rw (e) (elim (Bool-cases (leb 5 p)) [
            | inl there ↦ leb→le _ _ there
            | inr not_there ↦
                let few : 10 ^ p ≤ 10 ^ 4 =
                  pow-le-pow_right {n = 10} (omega arith) {i = p} {j = 4}
                    (omega (arith, not_leb→lt _ _ not_there)) in
                let most =
                  mul-le-mul {n₁ = n} {m₁ = 10 ^ p} {n₂ = 10 ^ 22} {m₂ = 10 ^ 4} (omega arith)
                    few in
                absurd (omega arith)
          ])
      | inr e ↦ rw (e) (places_from-bound fuel (p + 1) n d pos small (omega arith))
    ]

rounded_at :
    (n d places : ℕ)
    → 1 ≤ d
    → d < 10 ^ 5
    → 5 ≤ places
    → half_up (half_even (n * 10 ^ places) d) (10 ^ places) ≡ half_up n d
rounded_at n d zero pos fine many = absurd (omega arith)
rounded_at n d (suc k) pos fine many =
    let unit : 10 ^ suc k ≡ 2 * (5 * 10 ^ k) = omega (arith, pow-succ' 10 k) in
    let large : 10 ^ 4 ≤ 10 ^ k =
      pow-le-pow_right {n = 10} (omega arith) {i = 4} {j = k} (omega arith) in
    rw (unit) (rounded_twice n d (5 * 10 ^ k) pos (omega arith))

places_of-bound : (n d : ℕ) → 1 ≤ d → n < 10 ^ 22 → 5 ≤ places_of n d
unfolding places_of
places_of-bound n d pos small = places_from-bound 60 0 n d pos small (omega arith)

pub divide-rounded :
    (n d : ℕ) → 1 ≤ d → d < 10 ^ 5 → n < 10 ^ 22 → round_half_up (divide n d) ≡ half_up n d
unfolding divide
divide-rounded n d pos fine small =
    rounded_at n d (places_of n d) pos fine (places_of-bound n d pos small)

-- Dividing first to 28 digits and then rounding to the cent charges what rounding the exact
-- fraction `unit_price × months × covered_days / period_days` half up to the cent does, for every
-- price of the columns' size: a period of under 100000 days, and a product below 10^22.
pub prorated_amount-half_up :
    (unit_price months covered_days period_days : ℕ)
    → 1 ≤ period_days
    → period_days < 10 ^ 5
    → unit_price * months * covered_days < 10 ^ 22
    → prorated_amount (some unit_price) months covered_days period_days
      ≡ half_up (unit_price * months * covered_days) period_days
unfolding prorated_amount
prorated_amount-half_up u m c d pos fine small = divide-rounded (u * m * c) d pos fine small
