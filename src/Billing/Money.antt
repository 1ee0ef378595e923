-- ===== src/Billing/Money.antt =====
-- apps/billing/money.py: the arithmetic of invoice lines and totals. Prices and amounts are cents,
-- quantities ten-thousandths, rates hundredths of a per cent. Python's `Decimal` is exact here but
-- for divisions, which round to 28 significant digits.
pub mod Exact
use shiftlush_api.Prelude.{
  ℕ, zero, suc, ◌+◌, ◌*◌, ◌/◌, ◌%◌, ◌^◌, Option, none, some, List, [], ◌∷◌, leb, if◌then◌else◌,
}
use shiftlush_api.Ledger.Decimal.{half_even}

-- n / d to the nearest whole number, a tie upwards (ROUND_HALF_UP).
abbrev pub half_up : ℕ → ℕ → ℕ
half_up n d = (2 * n + d) / (2 * d)

-- The decimal places of a quotient of 28 significant digits: those that bring it to 10^27.
-- A quotient below 10^-33 has fewer digits here.
unfoldable pub places_from : ℕ → ℕ → ℕ → ℕ → ℕ
places_from zero places n d = places
places_from (suc fuel) places n d =
    let more = places_from fuel (places + 1) n d in
    if leb (10 ^ 27) (n * 10 ^ places / d) then places else more

unfoldable pub places_of : ℕ → ℕ → ℕ
places_of n d = places_from 60 0 n d

-- `Decimal(n) / Decimal(d)`: a coefficient, and its places.
unfoldable pub divide : ℕ → ℕ → ℕ × ℕ
divide n d = (half_even (n * 10 ^ places_of n d) d, places_of n d)

-- `quantize(..., rounding=ROUND_HALF_UP)`, to whole units of what the number is counted in.
abbrev pub round_half_up : ℕ × ℕ → ℕ
round_half_up (coefficient, places) = half_up coefficient (10 ^ places)

unfoldable pub prorated_quantity : ℕ → ℕ → ℕ → ℕ
prorated_quantity months covered_days period_days =
    if leb period_days covered_days
    then months * 10000
    else round_half_up (divide (months * covered_days * 10000) period_days)

-- The product has six places.
unfoldable pub line_amount : ℕ → Option ℕ → ℕ
line_amount quantity none = 0
line_amount quantity (some unit_price) = half_up (quantity * unit_price) 10000

unfoldable pub prorated_amount : Option ℕ → ℕ → ℕ → ℕ → ℕ
prorated_amount none months covered_days period_days = 0
prorated_amount (some unit_price) months covered_days period_days =
    round_half_up (divide (unit_price * months * covered_days) period_days)

-- A subtotal, its VAT and the total. The sum of whole cents and its product with the rate are
-- exact, and a division by 100 moves the point.
abbrev pub totals : ℕ → ℕ → ℕ × ℕ × ℕ
totals subtotal vat_rate =
    let vat = half_up (subtotal * vat_rate) 10000 in (subtotal, vat, subtotal + vat)
