-- ===== src/Calendar/Months.antt =====
-- core/dates.py: a day moved by whole calendar months.
use shiftlush_api.Prelude.{
  ℕ, ◌+◌, ◌-◌, ◌*◌, ◌/◌, ◌%◌, ◌≤◌, ◌<◌, ◌≡◌, min, sym, zero, suc, inl, inr, Bool-cases, ltb, ltb→lt,
  not_ltb→le, arith,
}
use shiftlush_api.Calendar.{Date, civil, is_leap, days_in_month, days_before_month, to_ordinal}

-- A year past 9999 is an error in Python's `date` and is a date like the others here.
unfoldable pub add_months : Date → ℕ → Date
unfolding days_in_month is_leap
add_months day months =
    let index = day.month - 1 + months in
    let year = day.year + index / 12 in
    let month = index % 12 + 1 in civil year month (min day.day (days_in_month year month))

-- A day that `date(...)` constructs.
pub record IsDay (d : Date) : Type 0 where
  pub after_year : 1 ≤ d.year
  pub after_month : 1 ≤ d.month
  pub month_in_year : d.month ≤ 12
  pub after_day : 1 ≤ d.day
  pub day_in_month : d.day ≤ days_in_month d.year d.month

-- The ordinal of the day before a month's first.
month_start : ℕ → ℕ → ℕ
month_start y m = to_ordinal (civil y m 0)

pub to_ordinal-month_start : (y m d : ℕ) → to_ordinal (civil y m d) ≡ to_ordinal (civil y m 0) + d
unfolding to_ordinal
to_ordinal-month_start y m d = omega arith

next_month :
    (y m : ℕ)
    → 1 ≤ m
    → m < 12
    → to_ordinal (civil y (m + 1) 0) ≡ to_ordinal (civil y m 0) + days_in_month y m
unfolding to_ordinal days_before_month days_in_month is_leap
next_month y m low high = ground arith

next_year :
    (y : ℕ)
    → 1 ≤ y
    → to_ordinal (civil (y + 1) 1 0) ≡ to_ordinal (civil y 12 0) + days_in_month y 12
unfolding to_ordinal days_before_month days_in_month is_leap
next_year y low = ground arith

days_in_month-bound : (y m : ℕ) → 28 ≤ days_in_month y m
unfolding days_in_month
days_in_month-bound y m = ground arith

-- The months counted from the year's first, and the days before the one of an index.
abbrev pub start_of : ℕ → ℕ → ℕ
start_of year index = to_ordinal (civil (year + index / 12) (index % 12 + 1) 0)

abbrev pub length_of : ℕ → ℕ → ℕ
length_of year index = days_in_month (year + index / 12) (index % 12 + 1)

same_year : (y i : ℕ) → i % 12 < 11 → start_of y (i + 1) ≡ start_of y i + length_of y i
same_year y i h =
    let quotient : (i + 1) / 12 ≡ i / 12 = omega arith in
    let rest : (i + 1) % 12 ≡ i % 12 + 1 = omega arith in
    rw (quotient, rest) (next_month (y + i / 12) (i % 12 + 1) (omega arith) (omega arith))

year_after : (y i : ℕ) → 1 ≤ y → i % 12 ≡ 11 → start_of y (i + 1) ≡ start_of y i + length_of y i
year_after y i low h =
    let quotient : (i + 1) / 12 ≡ i / 12 + 1 = omega arith in
    let rest : (i + 1) % 12 ≡ 0 = omega arith in
    let year : y + (i / 12 + 1) ≡ y + i / 12 + 1 = omega arith in
    rw (quotient, rest, h, year) (next_year (y + i / 12) (omega arith))

pub start_of-suc : (y i : ℕ) → 1 ≤ y → start_of y (i + 1) ≡ start_of y i + length_of y i
start_of-suc y i low = elim (Bool-cases (ltb (i % 12) 11)) [
  | inl h ↦ same_year y i (ltb→lt _ _ h)
  | inr h ↦ year_after y i low (omega (arith, not_ltb→le _ _ h))
]

-- A day moved by months is in the month it is moved to.
add_months-start_of :
    (d : Date) (n : ℕ)
    → let index = d.month - 1 + n in
      to_ordinal (add_months d n) ≡ start_of d.year index + min d.day (length_of d.year index)
unfolding add_months days_in_month is_leap
add_months-start_of d n = to_ordinal-month_start _ _ _

-- A month later is at least 28 days later.
pub add_months-step :
    (d : Date)
    → IsDay d
    → (n : ℕ) → to_ordinal (add_months d n) + 28 ≤ to_ordinal (add_months d (n + 1))
add_months-step d v n =
    let at : d.month - 1 + (n + 1) ≡ d.month - 1 + n + 1 = omega arith in
    let there = add_months-start_of d n in
    let after = rw (at) at (add_months-start_of d (n + 1)) in
    let step = start_of-suc d.year (d.month - 1 + n) v.after_year in
    let here_long =
      days_in_month-bound (d.year + (d.month - 1 + n) / 12) ((d.month - 1 + n) % 12 + 1) in
    let there_long =
      days_in_month-bound (d.year + (d.month - 1 + n + 1) / 12) ((d.month - 1 + n + 1) % 12 + 1) in
    omega (arith, v.after_day)

-- A day moved by months is a day of the calendar.
pub add_months-IsDay : (d : Date) → IsDay d → (n : ℕ) → IsDay (add_months d n)
unfolding add_months
add_months-IsDay d v n =
    let long = days_in_month-bound (d.year + (d.month - 1 + n) / 12) ((d.month - 1 + n) % 12 + 1) in
    record {
      after_year = omega (arith, v.after_year);
      after_month = omega arith;
      month_in_year = omega arith;
      after_day = omega (arith, v.after_day);
      day_in_month = omega arith;
    }

-- How many months after another a month is.
pub add_months-index :
    (d : Date)
    → IsDay d
    → (n : ℕ) → (add_months d n).year * 12 + (add_months d n).month ≡ d.year * 12 + d.month + n
unfolding add_months
add_months-index d v n = omega (arith, v.after_month)

-- A day not moved is where it was.
pub add_months-zero : (d : Date) → IsDay d → to_ordinal (add_months d 0) ≡ to_ordinal d
add_months-zero d v =
    let quotient : d.year + (d.month - 1 + 0) / 12 ≡ d.year = omega arith in
    let rest : (d.month - 1 + 0) % 12 + 1 ≡ d.month = omega arith in
    let whole : min d.day (days_in_month d.year d.month) ≡ d.day = omega arith in
    let there : to_ordinal (add_months d 0)
        ≡ to_ordinal (civil d.year d.month 0) + min d.day (days_in_month d.year d.month) =
      rw (quotient, rest) at (add_months-start_of d 0) in
    rw (there, whole) (sym (to_ordinal-month_start d.year d.month d.day))

pub add_months_mono :
    (d : Date)
    → IsDay d
    → (n k : ℕ) → to_ordinal (add_months d n) + k ≤ to_ordinal (add_months d (n + k))
add_months_mono d v n zero = let at : n + 0 ≡ n = omega arith in rw (at) (omega arith)
add_months_mono d v n (suc k) =
    let at : n + suc k ≡ n + k + 1 = omega arith in
    let before = add_months_mono d v n k in
    let step = add_months-step d v (n + k) in rw (at) (omega arith)

pub add_months-after :
    (d : Date) → IsDay d → (m : ℕ) → 1 ≤ m → to_ordinal d + 28 ≤ to_ordinal (add_months d m)
add_months-after d v m low =
    let at : 0 + 1 + (m - 1) ≡ m = omega arith in
    let here = add_months-zero d v in
    let step = add_months-step d v 0 in
    let later = rw (at) at (add_months_mono d v (0 + 1) (m - 1)) in omega arith

pub to_ordinal-pos : (d : Date) → IsDay d → 1 ≤ to_ordinal d
to_ordinal-pos d v = omega (arith, to_ordinal-month_start d.year d.month d.day, v.after_day)
