-- ===== src/Ledger/Decimal.antt =====
-- Amounts as they reach the services: Python's `Decimal`, and the test `is_money` of
-- apps/ledger/posting.py that admits one to the books.
pub mod WholeCents
pub mod Checked
use shiftlush_api.Prelude.{
  ℕ, ◌+◌, ◌-◌, ◌*◌, ◌/◌, ◌%◌, ◌^◌, Bool, true, false, ltb, leb, ◌==◌, if◌then◌else◌,
}
use shiftlush_api.Errors.{Error, invalid_operation}
use shiftlush_api.Action.{Result, ok, err, Action, ⊤, pure, raise}

-- `finite negative coefficient places` is ± coefficient × 10^-places.
pub data Decimal : Type 0 where
  nan infinity : Decimal
  finite : Bool → ℕ → ℕ → Decimal

-- n / d to the nearest whole number, a tie to the even one (the default context's rounding).
abbrev pub half_even : ℕ → ℕ → ℕ
half_even n d =
    let q = n / d in
    let r = n % d in if ltb (2 * r) d then q else if ltb d (2 * r) then q + 1 else q + q % 2

-- The cents of `amount.quantize(Decimal("0.01"))`.
unfoldable pub quantize_cents : ℕ → ℕ → ℕ
quantize_cents coefficient places =
    if ltb 2 places
    then half_even coefficient (10 ^ (places - 2))
    else coefficient * 10 ^ (2 - places)

-- `amount == amount.quantize(_CENT)`: equal as numbers, whatever their places.
abbrev pub is_whole_cents : ℕ → ℕ → Bool
is_whole_cents coefficient places =
    quantize_cents coefficient places * 10 ^ places == coefficient * 100

-- `quantize` refuses a result of more digits than the context's precision.
abbrev pub precision : ℕ
precision = 28

abbrev pub is_too_long : ℕ → Bool
is_too_long coefficient = leb (10 ^ precision) coefficient

-- Compared only where the amount is above zero, and quantized only then.
unfoldable pub is_money : Decimal → Result Bool
unfolding quantize_cents
is_money nan = ok false
is_money infinity = ok false
is_money (finite true coefficient places) = ok false
is_money (finite false coefficient places) =
    if coefficient == 0
    then ok false
    else if is_too_long (quantize_cents coefficient places)
    then err invalid_operation
    else ok (is_whole_cents coefficient places)

abbrev pub refuse_unless : {S : Type 0} → Error → Result Bool → Action S ⊤
refuse_unless e (ok true) = pure tt
refuse_unless e (ok false) = raise e
refuse_unless e (err x) = raise x

-- `if not is_money(amount): raise e`
unfoldable pub check_money : {S : Type 0} → Error → Decimal → Action S ⊤
unfolding is_money
check_money e amount = refuse_unless e (is_money amount)

-- The cents that a column of two decimal places holds of an amount that is money.
unfoldable pub cents : Decimal → ℕ
cents nan = 0
cents infinity = 0
cents (finite _ coefficient places) = quantize_cents coefficient places
