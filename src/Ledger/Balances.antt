-- ===== src/Ledger/Balances.antt =====
-- apps/ledger/balances.py: balances, always computed from the movements. Amounts are whole cents,
-- so the rounding of the sums changes nothing and is left out.
pub mod Effects
use shiftlush_api.Prelude.{
  ℕ, Bool, true, false, ◌&&◌, Option, none, some, List, holds, ltb, sum_where,
}
use shiftlush_api.Prelude.Int.{ℤ, pos, ◌-ℤ◌}
use shiftlush_api.Ledger.Models.{
  Direction, debit, credit, CashDirection, cash_in, cash_out, Movement, Books,
}

abbrev pub is_debit : Option Direction → Bool
is_debit (some debit) = true
is_debit _ = false

abbrev pub is_credit : Option Direction → Bool
is_credit (some credit) = true
is_credit _ = false

abbrev pub is_in : Option CashDirection → Bool
is_in (some cash_in) = true
is_in _ = false

abbrev pub is_out : Option CashDirection → Bool
is_out (some cash_out) = true
is_out _ = false

abbrev pub debits : ℕ → Movement → Bool
debits account m = holds m.account account && is_debit m.direction

abbrev pub credits : ℕ → Movement → Bool
credits account m = holds m.account account && is_credit m.direction

abbrev pub brings_in : ℕ → Movement → Bool
brings_in cash m = holds m.cash_account cash && is_in m.cash_direction

abbrev pub takes_out : ℕ → Movement → Bool
takes_out cash m = holds m.cash_account cash && is_out m.cash_direction

abbrev pub amount : Movement → ℕ
amount m = m.amount

-- `_signed_sum`: what the first condition finds less what the second finds.
abbrev pub signed_sum : (positive negative : Movement → Bool) → List Movement → ℤ
signed_sum positive negative ms =
    pos (sum_where positive amount ms) -ℤ pos (sum_where negative amount ms)

unfoldable pub account_balance : ℕ → Books → ℤ
account_balance account s = signed_sum (debits account) (credits account) s.movements

unfoldable pub account_balance_before : ℕ → ℕ → Books → ℤ
account_balance_before account day s =
    signed_sum (λ m. debits account m && ltb m.date day) (λ m. credits account m && ltb m.date day)
      s.movements

unfoldable pub cash_balance : ℕ → Books → ℤ
cash_balance cash s = signed_sum (brings_in cash) (takes_out cash) s.movements
