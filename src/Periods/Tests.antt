-- ===== src/Periods/Tests.antt =====
-- The periods of a contract from the 31st of a month, and an example of each theorem on periods.
use shiftlush_api.Prelude.{ℕ, ◌≡◌, refl, List, [], ◌∷◌, map, arith}
use shiftlush_api.Fleet.{BillingPeriod}
use shiftlush_api.Calendar.{
  Date, civil, is_leap, days_in_month, days_before_month, from_ordinal, to_ordinal,
}
use shiftlush_api.Calendar.Months.{IsDay, add_months}
use shiftlush_api.Periods.{period_start_of, period_at, periods_from, periods, overlap_days}
use shiftlush_api.Periods.Tiling.{IsTiled, periods-IsTiled, days_billed, days_billed-periods}

abbrev last_of_january : Date
last_of_january = civil 2025 1 31

abbrev tenth_of_may : ℕ
tenth_of_may = 739381

unfoldable starts_shown : BillingPeriod → List Date
unfolding periods periods_from period_at period_start_of add_months to_ordinal from_ordinal
    days_in_month days_before_month is_leap
starts_shown b = map (λ p. from_ordinal p.start) (periods last_of_january tenth_of_may b)

-- The 31st is not lost after February.
monthly_starts :
    starts_shown BillingPeriod.monthly
    ≡ civil 2025 1 31 ∷ civil 2025 2 28 ∷ civil 2025 3 31 ∷ civil 2025 4 30 ∷ []
unfolding starts_shown
monthly_starts = refl

quarterly_starts : starts_shown BillingPeriod.quarterly ≡ civil 2025 1 31 ∷ civil 2025 4 30 ∷ []
unfolding starts_shown
quarterly_starts = refl

last_of_january-IsDay : IsDay last_of_january
unfolding days_in_month
last_of_january-IsDay = record {
  after_year = omega arith;
  after_month = omega arith;
  month_in_year = omega arith;
  after_day = omega arith;
  day_in_month = omega arith;
}

periods-IsTiled_example :
    IsTiled tenth_of_may
      (to_ordinal last_of_january)
      (periods last_of_january tenth_of_may BillingPeriod.monthly)
periods-IsTiled_example =
    periods-IsTiled last_of_january last_of_january-IsDay tenth_of_may BillingPeriod.monthly

days_billed-periods_example :
    days_billed 739300 739350 (periods last_of_january tenth_of_may BillingPeriod.monthly)
    ≡ overlap_days (to_ordinal last_of_january) tenth_of_may 739300 739350
days_billed-periods_example =
    days_billed-periods last_of_january last_of_january-IsDay tenth_of_may BillingPeriod.monthly
      739300 739350
