-- ===== src/Ledger/Statement.antt =====
-- apps/ledger/statement.py: an account's movements between two days, with the balance after each.
-- Amounts are whole cents, so that quantizing them changes nothing.
pub mod Balance
pub mod Tests
use shiftlush_api.Prelude.{
  ℕ, ◌+◌, Bool, true, ◌&&◌, Option, none, some, List, [], ◌∷◌, Text, holds, is_some, leb, select,
  if◌then◌else◌,
}
use shiftlush_api.Prelude.Int.{ℤ, pos, ◌+ℤ◌, ◌-ℤ◌}
use shiftlush_api.Ledger.Models.{DocumentType, Movement, Books}
use shiftlush_api.Ledger.Balances.{is_debit, is_credit, account_balance_before}
use shiftlush_api.Ledger.Reversal.{order_by_date}

pub record StatementRow : Type 0 where
  pub date : ℕ
  pub description : Text
  pub debit : ℕ
  pub credit : ℕ
  pub balance : ℤ
  pub document_type : Option DocumentType
  pub document_id : Option ℕ
  pub is_reversal : Bool
  pub movement_id : ℕ

pub record Statement : Type 0 where
  pub account : ℕ
  pub start : Option ℕ
  pub end : Option ℕ
  pub opening : ℤ
  pub rows : List StatementRow
  pub closing : ℤ

unfoldable pub total_debit : List StatementRow → ℕ
total_debit [] = 0
total_debit (r ∷ rs) = r.debit + total_debit rs

unfoldable pub total_credit : List StatementRow → ℕ
total_credit [] = 0
total_credit (r ∷ rs) = r.credit + total_credit rs

-- `movements.filter(date__gte=start)`, and `date__lte=end`, where the day is given.
abbrev pub from_day : Option ℕ → ℕ → Bool
from_day none day = true
from_day (some start) day = leb start day

abbrev pub to_day : Option ℕ → ℕ → Bool
to_day none day = true
to_day (some end) day = leb day end

abbrev pub is_listed : ℕ → Option ℕ → Option ℕ → Movement → Bool
is_listed account start end m =
    holds m.account account && (from_day start m.date && to_day end m.date)

abbrev pub debit_of : Movement → ℕ
debit_of m = if is_debit m.direction then m.amount else 0

abbrev pub credit_of : Movement → ℕ
credit_of m = if is_credit m.direction then m.amount else 0

abbrev pub row_of : Movement → ℤ → StatementRow
row_of m balance = record {
  date = m.date;
  description = m.description;
  debit = debit_of m;
  credit = credit_of m;
  balance = balance;
  document_type = m.document_type;
  document_id = m.document_id;
  is_reversal = is_some m.reverses;
  movement_id = m.id;
}

-- The loop: the rows, and the balance after the last.
unfoldable pub run_balance : ℤ → List Movement → List StatementRow × ℤ
run_balance balance [] = ([], balance)
run_balance balance (m ∷ ms) =
    let after = (balance +ℤ pos (debit_of m)) -ℤ pos (credit_of m) in
    let rest = run_balance after ms in (row_of m after ∷ rest.0, rest.1)

abbrev pub opening_of : ℕ → Option ℕ → Books → ℤ
opening_of account none s = pos 0
opening_of account (some start) s = account_balance_before account start s

unfoldable pub statement_rows : ℕ → Option ℕ → Option ℕ → Books → Statement
unfolding run_balance
statement_rows account start end s =
    let opening = opening_of account start s in
    let listed = order_by_date (select (is_listed account start end) s.movements) in
    let run = run_balance opening listed in
    record {
      account = account;
      start = start;
      end = end;
      opening = opening;
      rows = run.0;
      closing = run.1;
    }
