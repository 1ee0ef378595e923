-- ===== src/Ledger/Statement/Tests.antt =====
-- Statements of a concrete account, and an example of the theorem on them.
use shiftlush_api.Prelude.{ℕ, ◌≡◌, refl, Option, none, some, List, [], ◌∷◌, map, select, sum_where}
use shiftlush_api.Prelude.Int.{ℤ, pos, negsuc, ◌+ℤ◌, ◌-ℤ◌}
use shiftlush_api.Ledger.Models.{Direction, debit, credit, MovementSource, Movement, Books}
use shiftlush_api.Ledger.Balances.{account_balance_before}
use shiftlush_api.Ledger.Reversal.{insert_by_date, order_by_date}
use shiftlush_api.Ledger.Sample.{opened}
use shiftlush_api.Ledger.Statement.{run_balance, statement_rows, opening_of}
use shiftlush_api.Ledger.Statement.Balance.{IsRunning, balance_to, statement_rows-IsRunning}

abbrev movement_on : ℕ → ℕ → Direction → ℕ → Movement
movement_on id day direction amount = record {
  id = id;
  company = 1;
  account = some 3;
  cash_account = none;
  date = day;
  direction = some direction;
  cash_direction = none;
  amount = amount;
  currency = 0;
  source = MovementSource.manual;
  document_type = none;
  document_id = none;
  reverses = none;
  description = [];
}

-- Written out of the order of their days.
abbrev written : Books
written = record opened {
  movements =
      movement_on 20 739103 debit 500
      ∷ movement_on 21 739101 debit 900
      ∷ movement_on 22 739102 credit 1500
      ∷ movement_on 23 739104 credit 100
      ∷ [];
}

unfoldable balances_shown : Option ℕ → Option ℕ → List ℤ
unfolding statement_rows run_balance order_by_date insert_by_date select account_balance_before
    sum_where ◌+ℤ◌ ◌-ℤ◌
balances_shown start end = map (λ r. r.balance) (statement_rows 3 start end written).rows

all_shown : balances_shown none none ≡ pos 900 ∷ negsuc 599 ∷ negsuc 99 ∷ negsuc 199 ∷ []
unfolding balances_shown
all_shown = refl

window_shown : balances_shown (some 739102) (some 739103) ≡ negsuc 599 ∷ negsuc 99 ∷ []
unfolding balances_shown
window_shown = refl

statement_rows-IsRunning_example :
    let st = statement_rows 3 (some 739102) (some 739103) written in
    (st.opening ≡ opening_of 3 (some 739102) written)
    × IsRunning st.opening st.rows st.closing
    × (st.closing ≡ balance_to 3 (some 739103) written)
statement_rows-IsRunning_example =
    statement_rows-IsRunning 3 (some 739102) (some 739103) written refl
