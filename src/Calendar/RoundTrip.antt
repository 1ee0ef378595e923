-- ===== src/Calendar/RoundTrip.antt =====
-- Python's `date.fromordinal` and `date.toordinal`: each takes back what the other made.
use shiftlush_api.Prelude.{
  ℕ, ◌+◌, ◌-◌, ◌*◌, ◌/◌, ◌%◌, ◌≤◌, ◌<◌, ◌≡◌, refl, ◌∙◌, ==_iff, Bool, true, false, arith, ltb, ◌&&◌,
  if◌then◌else◌, ◌==◌, ◌||◌, not, inl, inr, Bool-cases, ltb→lt, not_ltb→le,
}
use shiftlush_api.Calendar.{
  Date, civil, is_leap, days_in_month, days_before_month, day_of_year, from_ordinal, to_ordinal,
}
use shiftlush_api.Calendar.Months.{IsDay}

abbrev year_days : Bool → ℕ
year_days leap = if leap then 366 else 365

abbrev days_before : Bool → ℕ → ℕ
days_before leap m = days_before_month m + (if ltb 2 m && leap then 1 else 0)

guess-bounds : (leap : Bool) (n : ℕ) → n < year_days leap → days_before leap ((n + 50) / 32 - 1) ≤ n
unfolding days_before_month
guess-bounds leap n h = ground arith

-- The month that a day of the year is in, as `day_of_year` finds it.
abbrev month_of : Bool → ℕ → ℕ
month_of leap n =
    let guess = (n + 50) / 32 in if ltb n (days_before leap guess) then guess - 1 else guess

abbrev length_of : Bool → ℕ → ℕ
length_of leap m =
    if m == 4 || m == 6 || m == 9 || m == 11
    then 30
    else if not (m == 2)
    then 31
    else if leap
    then 29
    else 28

month_of-bounds :
    (leap : Bool) (n : ℕ) → n < year_days leap → (1 ≤ month_of leap n) × (month_of leap n ≤ 12)
unfolding days_before_month
month_of-bounds leap n h = ground arith

month_of-begun : (leap : Bool) (n : ℕ) → n < year_days leap → days_before leap (month_of leap n) ≤ n
month_of-begun leap n h = elim (Bool-cases (ltb n (days_before leap ((n + 50) / 32)))) [
  | inl e ↦ rw (e) (guess-bounds leap n h)
  | inr e ↦ rw (e) (not_ltb→le _ _ e)
]

guess-within :
    (leap : Bool) (n : ℕ)
    → n < year_days leap
    → n < days_before leap ((n + 50) / 32) + length_of leap ((n + 50) / 32)
unfolding days_before_month
guess-within leap n h = ground arith

guess-before :
    (leap : Bool) (n : ℕ)
    → n < days_before leap ((n + 50) / 32)
    → n < year_days leap
    → n < days_before leap ((n + 50) / 32 - 1) + length_of leap ((n + 50) / 32 - 1)
unfolding days_before_month
guess-before leap n e h = ground arith

month_of-within :
    (leap : Bool) (n : ℕ)
    → n < year_days leap
    → n < days_before leap (month_of leap n) + length_of leap (month_of leap n)
month_of-within leap n h = elim (Bool-cases (ltb n (days_before leap ((n + 50) / 32)))) [
  | inl e ↦ rw (e) (guess-before leap n (ltb→lt _ _ e) h)
  | inr e ↦ rw (e) (guess-within leap n h)
]

-- The days before a month, from the year's first.
to_ordinal-days_before :
    (y m d : ℕ)
    → to_ordinal (civil y m d)
      ≡ (y - 1) * 365 + (y - 1) / 4 - (y - 1) / 100 + (y - 1) / 400 + days_before (is_leap y) m + d
unfolding to_ordinal
to_ordinal-days_before y m d = omega arith

day_of_year-ordinal :
    (y n : ℕ) (leap : Bool)
    → leap ≡ is_leap y
    → n < year_days leap
    → to_ordinal (day_of_year y leap n)
      ≡ (y - 1) * 365 + (y - 1) / 4 - (y - 1) / 100 + (y - 1) / 400 + n + 1
day_of_year-ordinal y n leap e h =
    let begun = month_of-begun leap n h in
    let there =
      rw (← e) at
        (to_ordinal-days_before y (month_of leap n) (n - days_before leap (month_of leap n) + 1)) in
    omega arith

day_of_year-IsDay :
    (y n : ℕ) (leap : Bool)
    → leap ≡ is_leap y
    → 1 ≤ y
    → n < year_days leap
    → IsDay (day_of_year y leap n)
unfolding days_in_month
day_of_year-IsDay y n leap e low h = record {
  after_year = low;
  after_month = (month_of-bounds leap n h).0;
  month_in_year = (month_of-bounds leap n h).1;
  after_day = omega arith;
  day_in_month =
      let within = month_of-within leap n h in rw (← e) (omega (arith, month_of-begun leap n h));
}

-- A year in its 400, 100 and 4 years, and the tests of a leap year on them.
leap_in_blocks :
    (a b c d : ℕ)
    → b < 4
    → c < 25
    → d < 4
    → (d == 3 && (not (c == 24) || b == 3)) ≡ is_leap (a * 400 + 1 + b * 100 + c * 4 + d)
unfolding is_leap
leap_in_blocks a b c d hb hc hd = ground arith

days_in_blocks :
    (a b c d : ℕ)
    → b < 4
    → c < 25
    → d < 4
    → let y = a * 400 + 1 + b * 100 + c * 4 + d in
      (y - 1) * 365 + (y - 1) / 4 - (y - 1) / 100 + (y - 1) / 400
      ≡ a * 146097 + b * 36524 + c * 1461 + d * 365
days_in_blocks a b c d hb hc hd = omega arith

-- The last day of a leap year, which its blocks count as one of the year after.
last_of_4 :
    (a b c : ℕ)
    → b < 4
    → c < 24
    → to_ordinal (civil (a * 400 + 1 + b * 100 + c * 4 + 4 - 1) 12 31)
      ≡ a * 146097 + b * 36524 + c * 1461 + 1461
unfolding to_ordinal days_before_month is_leap
last_of_4 a b c hb hc = ground arith

last_of_400 :
    (a : ℕ) → to_ordinal (civil (a * 400 + 1 + 4 * 100 + 0 * 4 + 0 - 1) 12 31) ≡ a * 146097 + 146097
unfolding to_ordinal days_before_month is_leap
last_of_400 a = ground arith

-- `from_ordinal`, on the counts it divides the days into.
abbrev from_blocks : ℕ → ℕ → ℕ → ℕ → ℕ → Date
from_blocks a b c d r =
    let y = a * 400 + 1 + b * 100 + c * 4 + d in
    if d == 4 || b == 4
    then civil (y - 1) 12 31
    else day_of_year y (d == 3 && (not (c == 24) || b == 3)) r

-- The counts of a number of days.
record IsCounted (b c d r : ℕ) : Type 0 where
  year : r < 365
  years : d * 365 + r < 1461
  fours : c * 1461 + d * 365 + r < 36524
  hundreds : b * 36524 + c * 1461 + d * 365 + r < 146097

under_year : {r : ℕ} (leap : Bool) → r < 365 → r < year_days leap
under_year true h = omega arith
under_year false h = h

from_blocks-year : (b d : ℕ) → b < 4 → d < 4 → (d == 4 || b == 4) ≡ false
from_blocks-year b d hb hd = ground arith

-- The last day of 400 years, of 4 years, and every other day.
data Place (b c d r : ℕ) : Type 0 where
  of_400 : b ≡ 4 → c ≡ 0 → d ≡ 0 → r ≡ 0 → Place b c d r
  of_4 : d ≡ 4 → r ≡ 0 → b < 4 → c < 24 → Place b c d r
  within : b < 4 → c < 25 → d < 4 → Place b c d r

place : (b c d r : ℕ) → IsCounted b c d r → Place b c d r
place b c d r h = elim (Bool-cases (b == 4)) [
  | inl at ↦ let four = (==_iff b 4).0 at in of_400 four (omega arith) (omega arith) (omega arith)
  | inr eb ↦
      let few : b < 4 = ground arith in
      elim (Bool-cases (d == 4)) [
        | inl at ↦ let four = (==_iff d 4).0 at in of_4 four (omega arith) few (omega arith)
        | inr ed ↦ within few (omega arith) (ground arith)
      ]
]

from_blocks-ordinal :
    (a b c d r : ℕ)
    → IsCounted b c d r
    → to_ordinal (from_blocks a b c d r) ≡ a * 146097 + b * 36524 + c * 1461 + d * 365 + r + 1
from_blocks-ordinal a b c d r h = elim (place b c d r h) [
  | of_400 eb ec ed er ↦ rw (eb, ec, ed, er) (last_of_400 a ∙ omega arith)
  | of_4 ed er hb hc ↦ rw (ed, er) (last_of_4 a b c hb hc ∙ omega arith)
  | within hb hc hd ↦ rw (from_blocks-year b d hb hd) (
      day_of_year-ordinal _ r _ (leap_in_blocks a b c d hb hc hd) (under_year _ h.year)
      ∙ rw (days_in_blocks a b c d hb hc hd) refl)
]

december : (y : ℕ) → 1 ≤ y → IsDay (civil y 12 31)
unfolding days_in_month
december y low = record {
  after_year = low;
  after_month = omega arith;
  month_in_year = omega arith;
  after_day = omega arith;
  day_in_month = omega arith;
}

from_blocks-IsDay : (a b c d r : ℕ) → IsCounted b c d r → IsDay (from_blocks a b c d r)
from_blocks-IsDay a b c d r h = elim (place b c d r h) [
  | of_400 eb ec ed er ↦ rw (eb, ec, ed) (december _ (omega arith))
  | of_4 ed er hb hc ↦ rw (ed) (december _ (omega arith))
  | within hb hc hd ↦ rw (from_blocks-year b d hb hd) (
      day_of_year-IsDay _ r _ (leap_in_blocks a b c d hb hc hd) (omega arith) (under_year _ h.year))
]

counted :
    (n : ℕ)
    → IsCounted
        ((n - 1) % 146097 / 36524)
        ((n - 1) % 146097 % 36524 / 1461)
        ((n - 1) % 146097 % 36524 % 1461 / 365)
        ((n - 1) % 146097 % 36524 % 1461 % 365)
counted n = record {
  year = omega arith;
  years = omega arith;
  fours = omega arith;
  hundreds = omega arith;
}

pub to_ordinal-from_ordinal : (n : ℕ) → 1 ≤ n → to_ordinal (from_ordinal n) ≡ n
unfolding from_ordinal
to_ordinal-from_ordinal n low =
    let m = n - 1 in
    let there =
      from_blocks-ordinal (m / 146097) (m % 146097 / 36524) (m % 146097 % 36524 / 1461)
        (m % 146097 % 36524 % 1461 / 365) (m % 146097 % 36524 % 1461 % 365) (counted n) in
    there ∙ omega arith

pub from_ordinal-IsDay : (n : ℕ) → IsDay (from_ordinal n)
unfolding from_ordinal
from_ordinal-IsDay n =
    let m = n - 1 in
    from_blocks-IsDay (m / 146097) (m % 146097 / 36524) (m % 146097 % 36524 / 1461)
      (m % 146097 % 36524 % 1461 / 365) (m % 146097 % 36524 % 1461 % 365) (counted n)
