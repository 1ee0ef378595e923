-- ===== src/Calendar/Order.antt =====
-- The order of days and of their ordinals, as of Python's `date` and `toordinal`.
use shiftlush_api.Prelude.{
  ℕ, zero, suc, ◌+◌, ◌-◌, ◌*◌, ◌/◌, ◌%◌, ◌≤◌, ◌<◌, ◌≡◌, ap, sym, ◌∙◌, inl, inr, Bool-cases, ltb,
  ltb→lt, not_ltb→le, arith,
}
use shiftlush_api.Calendar.{Date, civil, from_ordinal, to_ordinal}
use shiftlush_api.Calendar.Months.{IsDay, start_of, length_of, start_of-suc, to_ordinal-month_start}
use shiftlush_api.Calendar.RoundTrip.{to_ordinal-from_ordinal, from_ordinal-IsDay}

-- The months of all years, counted from January of the year 1.
abbrev month_index : Date → ℕ
month_index d = (d.year - 1) * 12 + (d.month - 1)

start_of_mono : (i k : ℕ) → start_of 1 i ≤ start_of 1 (i + k)
start_of_mono i zero = let at : i + 0 ≡ i = omega arith in rw (at) (omega arith)
start_of_mono i (suc k) =
    let at : i + suc k ≡ i + k + 1 = omega arith in
    let step = start_of-suc 1 (i + k) (omega arith) in
    let ih = start_of_mono i k in rw (at) (omega arith)

year_of-index : (d : Date) → IsDay d → 1 + month_index d / 12 ≡ d.year
year_of-index d v = omega (arith, v.after_year, v.after_month, v.month_in_year)

month_of-index : (d : Date) → IsDay d → month_index d % 12 + 1 ≡ d.month
month_of-index d v = omega (arith, v.after_year, v.after_month, v.month_in_year)

to_ordinal-index : (d : Date) → IsDay d → to_ordinal d ≡ start_of 1 (month_index d) + d.day
to_ordinal-index d v =
    rw (year_of-index d v, month_of-index d v) (to_ordinal-month_start d.year d.month d.day)

day-bound : (d : Date) → IsDay d → d.day ≤ length_of 1 (month_index d)
day-bound d v = rw (year_of-index d v, month_of-index d v) v.day_in_month

earlier-month :
    (d e : Date) → IsDay d → IsDay e → month_index d < month_index e → to_ordinal d < to_ordinal e
earlier-month d e v w h =
    let apart : month_index d + 1 + (month_index e - month_index d - 1) ≡ month_index e =
      omega arith in
    let climb =
      rw (apart) at (start_of_mono (month_index d + 1) (month_index e - month_index d - 1)) in
    let step = start_of-suc 1 (month_index d) (omega arith) in
    let here = to_ordinal-index d v in
    let there = to_ordinal-index e w in let within = day-bound d v in omega (arith, w.after_day)

-- Days with the same ordinal are in the same month.
same-month :
    (d e : Date) → IsDay d → IsDay e → to_ordinal d ≡ to_ordinal e → month_index d ≡ month_index e
same-month d e v w h = elim (Bool-cases (ltb (month_index d) (month_index e))) [
  | inl before ↦ let less = earlier-month d e v w (ltb→lt _ _ before) in absurd (omega arith)
  | inr not_before ↦ elim (Bool-cases (ltb (month_index e) (month_index d))) [
    | inl after ↦ let less = earlier-month e d w v (ltb→lt _ _ after) in absurd (omega arith)
    | inr not_after ↦ omega (arith, not_ltb→le _ _ not_before, not_ltb→le _ _ not_after)
  ]
]

pub to_ordinal-injective : (d e : Date) → IsDay d → IsDay e → to_ordinal d ≡ to_ordinal e → d ≡ e
to_ordinal-injective d e v w h =
    let same = same-month d e v w h in
    let here = rw (same) at (to_ordinal-index d v) in
    let there = to_ordinal-index e w in
    let year : d.year ≡ e.year =
      sym (year_of-index d v) ∙ ap (λ i. 1 + i / 12) same ∙ year_of-index e w in
    let month : d.month ≡ e.month =
      sym (month_of-index d v) ∙ ap (λ i. i % 12 + 1) same ∙ month_of-index e w in
    let day : d.day ≡ e.day = omega arith in λ i. civil (year i) (month i) (day i)

-- An ordinal made of a day gives the day back, and a day made of an ordinal gives the ordinal.
pub from_ordinal-to_ordinal : (d : Date) → IsDay d → from_ordinal (to_ordinal d) ≡ d
from_ordinal-to_ordinal d v =
    let there = to_ordinal-index d v in
    to_ordinal-injective _ d (from_ordinal-IsDay (to_ordinal d)) v
      (to_ordinal-from_ordinal (to_ordinal d) (omega (arith, v.after_day)))
