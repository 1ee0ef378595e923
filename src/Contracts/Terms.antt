-- ===== src/Contracts/Terms.antt =====
-- apps/contracts/services.py: the term that follows another, and the number of a new contract.
use shiftlush_api.Prelude.{
  ℕ, suc, ◌+◌, ◌-◌, ◌*◌, ◌/◌, Bool, true, false, not, ◌&&◌, ◌||◌, Option, none, some, List, [], ◌∷◌,
  ◌++◌, Text, text, strip, digits, zero_padded, read, is_empty, ltb, leb, ◌==◌, if◌then◌else◌,
}
use shiftlush_api.Calendar.{Date, from_ordinal, to_ordinal}
use shiftlush_api.Calendar.Months.{add_months}

abbrev pub months_to : Date → ℕ
months_to d = d.year * 12 + d.month

-- The term that starts on `next`, the ordinal `new_start`, after one that started on `first` and
-- ended `length` days later. A number of months that is not positive is 0 here: the test refuses
-- both.
unfoldable pub term_from : Date → Date → ℕ → ℕ → ℕ × ℕ
term_from first next new_start length =
    let months = months_to next - months_to first in
    if ltb 0 months && (next.day == first.day && to_ordinal (add_months first months) == new_start)
    then (new_start, to_ordinal (add_months next months) - 1)
    else (new_start, new_start + length)

-- Both days are ordinals, and `start` is before `end`, as the table's check has it.
unfoldable pub next_term : ℕ → ℕ → ℕ × ℕ
unfolding term_from
next_term start end =
    term_from (from_ordinal start) (from_ordinal (end + 1)) (end + 1) (end - start)

-- `str(n)`
abbrev pub shown : ℕ → Text
shown n = digits (suc n) n []

-- The database's order of texts, by code points.
unfoldable pub text_leb : Text → Text → Bool
text_leb [] t = true
text_leb (a ∷ s) [] = false
text_leb (a ∷ s) (b ∷ t) = ltb a b || (a == b && text_leb s t)

-- `Max(...)`, null for no row
unfoldable pub highest_of : List Text → Option Text
unfolding text_leb
highest_of [] = none
highest_of (t ∷ ts) = elim (highest_of ts) [
  | none ↦ some t
  | some u ↦ some (if text_leb t u then u else t)
]

-- `s.startswith(prefix)`
unfoldable pub starts_with : Text → Text → Bool
starts_with [] s = true
starts_with (p ∷ prefix) [] = false
starts_with (p ∷ prefix) (c ∷ s) = p == c && starts_with prefix s

-- The text before the first dash, and the text after it.
unfoldable pub before_dash : Text → Text
before_dash [] = []
before_dash (c ∷ s) = if c == 45 then [] else c ∷ before_dash s

unfoldable pub after_dash : Text → Text
after_dash [] = []
after_dash (c ∷ s) = if c == 45 then s else after_dash s

unfoldable pub all_digits : Text → Bool
all_digits [] = true
all_digits (c ∷ s) = leb 48 c && leb c 57 && all_digits s

-- `int(s)`, an error (none) where `s` is not a number. A sign, underscores and the digits of other
-- scripts, which Python takes too, are errors here.
unfoldable pub int_of : Text → Option ℕ
unfolding all_digits strip read
int_of s = let t = strip s in if not (is_empty t) && all_digits t then some (read 0 t) else none

-- `timezone.now().year`, from the seconds since 1970.
unfoldable pub year_at : ℕ → ℕ
year_at now = (from_ordinal (now / 86400 + 719163)).year

unfoldable pub number_prefix : ℕ → Text
unfolding digits
number_prefix year = shown year ++ text "-"

-- `f"{prefix}{sequence:04d}"`
unfoldable pub numbered : ℕ → ℕ → Text
unfolding number_prefix zero_padded
numbered year sequence = number_prefix year ++ zero_padded 4 sequence

abbrev pub following : ℕ → Option ℕ → Option Text
following year none = none
following year (some n) = some (numbered year (n + 1))

-- The number after the highest, of the firm's numbers with the year's prefix; an error where the
-- highest does not go on with a number.
unfoldable pub number_after : ℕ → Option Text → Option Text
unfolding numbered int_of before_dash after_dash
number_after year none = some (numbered year 1)
number_after year (some highest) = following year (int_of (before_dash (after_dash highest)))
