-- ===== src/Periods/Tiling.antt =====
-- apps/billing/periods.py: the periods of a contract and its days.
use shiftlush_api.Prelude.{
  ℕ, suc, zero, ◌+◌, ◌-◌, ◌*◌, ◌≤◌, ◌<◌, ◌≡◌, refl, inl, inr, Bool-cases, ltb, ltb→lt, not_ltb→le,
  min, List, [], ◌∷◌, arith,
}
use shiftlush_api.Fleet.{BillingPeriod}
use shiftlush_api.Calendar.{Date, to_ordinal}
use shiftlush_api.Calendar.Months.{IsDay, add_months_mono, add_months-zero}
use shiftlush_api.Periods.{
  Period, months_in, period_start_of, period_at, periods_from, periods, overlap_days,
}

-- The periods cover every day from `from` to `end`, each day once, in order. Each ends where its
-- month arithmetic says, unless the contract ends first.
pub data IsTiled (end : ℕ) : ℕ → List Period → Type 0 where
  over : (from : ℕ) → end < from → IsTiled end from []
  then_tiled :
      (from : ℕ) (p : Period) (ps : List Period)
      → p.start ≡ from
      → p.start ≤ p.end
      → p.end ≡ min p.nominal_end end
      → IsTiled end (p.end + 1) ps
      → IsTiled end from (p ∷ ps)

-- No period starts after the end.
IsTiled-over :
    (end from : ℕ) (ps : List Period)
    → end < from
    → IsTiled end from ps
    → (k : ℕ) → end < k
    → IsTiled end k ps
IsTiled-over end from [] late (over _ _) k later = over k later
IsTiled-over end from (p ∷ ps) late (then_tiled _ _ _ here order cut rest) k later =
    absurd (omega arith)

module _ (start : Date) (v : IsDay start) (end : ℕ) where
  period_start_of-step :
      (m : ℕ) → 1 ≤ m → (i : ℕ) → period_start_of start m i + m ≤ period_start_of start m (i + 1)
  unfolding period_start_of
  period_start_of-step m low i =
      let at : (i + 1) * m ≡ i * m + m = omega arith in rw (at) (add_months_mono start v (i * m) m)

  period_start_of-zero : (m : ℕ) → period_start_of start m 0 ≡ to_ordinal start
  unfolding period_start_of
  period_start_of-zero m = let at : 0 * m ≡ 0 = omega arith in rw (at) (add_months-zero start v)

  -- A period and the ones after it.
  period_at-IsTiled :
      (m : ℕ)
      → 1 ≤ m
      → (i : ℕ) (rest : List Period) → period_start_of start m i ≤ end
      → IsTiled end (period_start_of start m (i + 1)) rest
      → IsTiled end (period_start_of start m i) (period_at start end m i ∷ rest)
  unfolding period_at
  period_at-IsTiled m low i rest begun tiled =
      let step = period_start_of-step m low i in
      let after : IsTiled end (min (period_start_of start m (i + 1) - 1) end + 1) rest =
        elim (Bool-cases (ltb end (period_start_of start m (i + 1) - 1))) [
          | inl h ↦
              IsTiled-over end _ rest (omega (arith, ltb→lt _ _ h)) tiled
                (min (period_start_of start m (i + 1) - 1) end + 1) (omega (arith, ltb→lt _ _ h))
          | inr h ↦
              let last : period_start_of start m (i + 1)
                  ≡ min (period_start_of start m (i + 1) - 1) end + 1 =
                omega (arith, not_ltb→le _ _ h) in
              rw (last) at tiled
        ] in
      then_tiled _ _ rest refl (omega arith) refl after

  periods_from-IsTiled :
      (m : ℕ)
      → 1 ≤ m
      → (fuel i : ℕ) → end + 1 < period_start_of start m i + fuel
      → IsTiled end (period_start_of start m i) (periods_from start end m fuel i)
  unfolding periods_from
  periods_from-IsTiled m low zero i enough = over _ (omega arith)
  periods_from-IsTiled m low (suc fuel) i enough =
      let step = period_start_of-step m low i in
      elim (Bool-cases (ltb end (period_start_of start m i))) [
        | inl h ↦ rw (h) (over _ (ltb→lt _ _ h))
        | inr h ↦ rw (h) (
            period_at-IsTiled m low i _ (not_ltb→le _ _ h)
              (periods_from-IsTiled m low fuel (i + 1) (omega arith)))
      ]

  months_in-pos : (b : BillingPeriod) → 1 ≤ months_in b
  months_in-pos b = ground arith

  -- The periods of a contract tile the days from its start to its end, whatever its start and
  -- its billing period: none is left out, none is in two periods, the first period starts with
  -- the contract, and a period is cut short only by the contract's end.
  pub periods-IsTiled :
      (billing_period : BillingPeriod)
      → IsTiled end (to_ordinal start) (periods start end billing_period)
  unfolding periods
  periods-IsTiled b = rw (period_start_of-zero (months_in b)) at (
      periods_from-IsTiled (months_in b) (months_in-pos b) (end + 1 - to_ordinal start + 1) 0
        (rw (period_start_of-zero (months_in b)) (omega arith)))

-- The days of a range that the periods bill.
pub days_billed : ℕ → ℕ → List Period → ℕ
days_billed first last [] = 0
days_billed first last (p ∷ ps) = overlap_days p.start p.end first last + days_billed first last ps

IsTiled-days_billed :
    (end from first last : ℕ) (ps : List Period)
    → IsTiled end from ps
    → days_billed first last ps ≡ overlap_days from end first last
unfolding days_billed overlap_days
IsTiled-days_billed end from first last [] (over _ late) = omega arith
IsTiled-days_billed end from first last (p ∷ ps) (then_tiled _ _ _ here order cut rest) =
    let ih = IsTiled-days_billed end (p.end + 1) first last ps rest in rw (ih) (omega arith)

-- Whatever range of days is covered, such as the days a lift is on the contract, its days in the
-- contract's periods add up to its days in the contract: each is billed once and none twice.
pub days_billed-periods :
    (start : Date)
    → IsDay start
    → (end : ℕ) (billing_period : BillingPeriod) (first last : ℕ)
    → days_billed first last (periods start end billing_period)
      ≡ overlap_days (to_ordinal start) end first last
days_billed-periods start v end b first last =
    IsTiled-days_billed end _ first last _ (periods-IsTiled start v end b)
