-- ===== src/Periods.antt =====
-- apps/billing/periods.py: the billing periods of a contract, aligned to its start date.
use shiftlush_api.Prelude.{ℕ, suc, zero, ◌+◌, ◌-◌, ◌*◌, min, max, List, [], ◌∷◌, ltb, if◌then◌else◌}
use shiftlush_api.Fleet.{BillingPeriod}
use shiftlush_api.Calendar.{Date, to_ordinal}
use shiftlush_api.Calendar.Months.{add_months}
pub mod Tiling
pub mod Tests

-- `MONTHS`
abbrev pub months_in : BillingPeriod → ℕ
months_in BillingPeriod.monthly = 1
months_in BillingPeriod.quarterly = 3
months_in BillingPeriod.semiannual = 6
months_in BillingPeriod.annual = 12

-- The days are ordinals.
pub record Period : Type 0 where
  pub start : ℕ
  pub end : ℕ
  pub nominal_end : ℕ
  pub months : ℕ

abbrev pub nominal_days : Period → ℕ
nominal_days p = p.nominal_end - p.start + 1

-- The day that a period starts on, stepped from the contract's start.
unfoldable pub period_start_of : Date → ℕ → ℕ → ℕ
period_start_of start months index = to_ordinal (add_months start (index * months))

-- One turn of the loop.
unfoldable pub period_at : Date → ℕ → ℕ → ℕ → Period
period_at start end months index =
    let nominal_end = period_start_of start months (index + 1) - 1 in
    record {
      start = period_start_of start months index;
      end = min nominal_end end;
      nominal_end = nominal_end;
      months = months;
    }

unfoldable pub periods_from : Date → ℕ → ℕ → ℕ → ℕ → List Period
periods_from start end months zero index = []
periods_from start end months (suc fuel) index =
    let later = periods_from start end months fuel (index + 1) in
    if ltb end (period_start_of start months index)
    then []
    else period_at start end months index ∷ later

-- A period starts at least a day after the one before, so that the loop turns at most once for
-- each day, and once more to return.
unfoldable pub periods : Date → ℕ → BillingPeriod → List Period
periods start end billing_period =
    periods_from start end (months_in billing_period) (end + 1 - to_ordinal start + 1) 0

-- The days that two inclusive ranges share; the subtraction stops at 0, as the source's `max` does.
unfoldable pub overlap_days : ℕ → ℕ → ℕ → ℕ → ℕ
overlap_days start end start_too end_too = min end end_too + 1 - max start start_too
