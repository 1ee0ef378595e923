-- ===== src/Ledger/Documents.antt =====
-- apps/ledger/services.py: payments out and manual entries. Each document posts its movement in one
-- transaction with its row.
use shiftlush_api.Prelude.{ℕ, none, some, ◌++◌, Text, text, is_empty, strip, truncate}
use shiftlush_api.Errors.{invalid, required}
use shiftlush_api.Action.{Action, pure, raise, raise_if, atomic, ◌>>=◌, ◌>>◌}
use shiftlush_api.Ledger.Decimal.{Decimal, cents}
use shiftlush_api.Ledger.Models.{
  PaymentMethod, MovementSource, Direction, debit, cash_out, Account, CashAccount, DocumentBody,
  Document, Books,
}
use shiftlush_api.Ledger.Posting.{Choice, blank, chosen, post}
use shiftlush_api.Ledger.Services.{
  same_firm, check_amount, check_method, next_number, payment_out_prefix, create_document,
  reference,
}

unfoldable pub record_payment_out :
    Account → CashAccount → Decimal → Choice PaymentMethod → ℕ → Text → Action Books Document
record_payment_out account cash_account amount method date note = do
  same_firm account.company "cash_account" cash_account.company
  chosen_method ← check_method method
  check_amount amount
  atomic (do
    number ← next_number account.company payment_out_prefix
    payment ←
        create_document account.company (cents amount) date
          (DocumentBody.payment_out number account.id cash_account.id chosen_method note)
    post (record {
      account = some account;
      cash_account = some cash_account;
      direction = chosen debit;
      cash_direction = chosen cash_out;
      amount = amount;
      currency = account.currency;
      date = date;
      source = chosen MovementSource.payment_out;
      document = reference payment;
      description = text "Tediye " ++ number;
    })
    pure payment)

-- `if direction not in Direction.values: raise ...`
unfoldable pub check_direction : Choice Direction → Action Books Direction
check_direction (chosen d) = pure d
check_direction _ = raise (invalid "direction")

unfoldable pub record_manual_entry :
    Account → Choice Direction → Decimal → ℕ → Text → Action Books Document
record_manual_entry account direction amount date reason = do
  raise_if (is_empty (strip reason)) (required "reason")
  d ← check_direction direction
  check_amount amount
  atomic (do
    entry ←
        create_document account.company (cents amount) date
          (DocumentBody.manual_entry account.id d (strip reason))
    post (record {
      account = some account;
      cash_account = none;
      direction = chosen d;
      cash_direction = blank;
      amount = amount;
      currency = account.currency;
      date = date;
      source = chosen MovementSource.manual;
      document = reference entry;
      description = truncate 500 (strip reason);
    })
    pure entry)
