-- ===== src/Calendar.antt =====
-- Calendar days, as Python's `date`: a year, a month and a day, and the ordinal of each.
pub mod Months
pub mod RoundTrip
pub mod Order
use shiftlush_api.Prelude.{
  ℕ, ◌+◌, ◌-◌, ◌*◌, ◌/◌, ◌%◌, ◌≡◌, refl, Bool, not, ◌&&◌, ◌||◌, ltb, leb, ◌==◌, Text, text,
  zero_padded, ◌++◌, if◌then◌else◌,
}

pub record Date : Type 0 where
  pub year : ℕ
  pub month : ℕ
  pub day : ℕ

abbrev pub civil : (year month day : ℕ) → Date
civil year month day = record { year = year; month = month; day = day }

-- `calendar.isleap`
unfoldable pub is_leap : ℕ → Bool
is_leap y = y % 4 == 0 && (not (y % 100 == 0) || y % 400 == 0)

-- `calendar.monthrange(year, month)[1]`
unfoldable pub days_in_month : ℕ → ℕ → ℕ
unfolding is_leap
days_in_month y m =
    if m == 4 || m == 6 || m == 9 || m == 11
    then 30
    else if not (m == 2)
    then 31
    else if is_leap y
    then 29
    else 28

-- The days of a common year before its months.
unfoldable pub days_before_month : ℕ → ℕ
days_before_month m =
    if leb m 1
    then 0
    else if m == 2
    then 31
    else if m == 3
    then 59
    else if m == 4
    then 90
    else if m == 5
    then 120
    else if m == 6
    then 151
    else if m == 7
    then 181
    else if m == 8
    then 212
    else if m == 9
    then 243
    else if m == 10
    then 273
    else if m == 11
    then 304
    else 334

-- `date.fromordinal`
abbrev day_of_year : ℕ → Bool → ℕ → Date
day_of_year y leap n =
    let guess = (n + 50) / 32 in
    let before = λ (m : ℕ). days_before_month m + (if ltb 2 m && leap then 1 else 0) in
    let m = if ltb n (before guess) then guess - 1 else guess in civil y m (n - before m + 1)

unfoldable pub from_ordinal : ℕ → Date
unfolding days_before_month
from_ordinal ordinal =
    let n = ordinal - 1 in
    let n400 = n / 146097 in
    let r400 = n % 146097 in
    let n100 = r400 / 36524 in
    let r100 = r400 % 36524 in
    let n4 = r100 / 1461 in
    let r4 = r100 % 1461 in
    let n1 = r4 / 365 in
    let r1 = r4 % 365 in
    let y = n400 * 400 + 1 + n100 * 100 + n4 * 4 + n1 in
    if n1 == 4 || n100 == 4
    then civil (y - 1) 12 31
    else day_of_year y (n1 == 3 && (not (n4 == 24) || n100 == 3)) r1

-- `date.toordinal`
unfoldable pub to_ordinal : Date → ℕ
unfolding days_before_month is_leap
to_ordinal d =
    let y = d.year - 1 in
    y * 365
    + y / 4
    - y / 100
    + y / 400
    + days_before_month d.month
    + (if ltb 2 d.month && is_leap d.year then 1 else 0)
    + d.day

-- `f"{day:%d.%m.%Y}"`
unfoldable pub day_text : ℕ → Text
unfolding from_ordinal zero_padded
day_text ordinal =
    let d = from_ordinal ordinal in
    zero_padded 2 d.day
    ++ (text "." ++ (zero_padded 2 d.month ++ (text "." ++ zero_padded 4 d.year)))

leap_day : from_ordinal 738945 ≡ civil 2024 2 29
unfolding from_ordinal
leap_day = refl

leap_day_back : to_ordinal (civil 2024 2 29) ≡ 738945
unfolding to_ordinal
leap_day_back = refl

last_of_400_years : from_ordinal 146097 ≡ civil 400 12 31
unfolding from_ordinal
last_of_400_years = refl
