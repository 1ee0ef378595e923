-- ===== src/Ledger/Transfers.antt =====
-- apps/ledger/services.py: transfers between two accounts or two cash accounts. A transfer posts
-- its two legs in one transaction with its row.
pub mod Conservation
use shiftlush_api.Prelude.{
  ℕ, not, ◌||◌, Option, none, some, Text, text, is_some, is_empty, truncate, ◌==◌, if◌then◌else◌,
}
use shiftlush_api.Errors.{invalid, required, field_error, currency_mismatch}
use shiftlush_api.Action.{Action, pure, raise, or_raise, raise_if, atomic, ◌>>=◌, ◌>>◌}
use shiftlush_api.Ledger.Decimal.{Decimal, cents}
use shiftlush_api.Ledger.Models.{
  MovementSource, Direction, debit, credit, CashDirection, cash_in, cash_out, TransferKind, Account,
  CashAccount, DocumentBody, Document, Books,
}
use shiftlush_api.Ledger.Posting.{Choice, blank, chosen, Posting, post}
use shiftlush_api.Ledger.Services.{same_firm, check_amount, create_document, reference}

-- One leg of a transfer, on an account or on a cash account.
abbrev pub leg :
    Option Account
    → Option CashAccount
    → Choice Direction
    → Choice CashDirection
    → Decimal
    → ℕ
    → ℕ
    → Document
    → Text
    → Posting
leg account cash_account direction cash_direction amount currency date transfer note = record {
  account = account;
  cash_account = cash_account;
  direction = direction;
  cash_direction = cash_direction;
  amount = amount;
  currency = currency;
  date = date;
  source = chosen MovementSource.transfer;
  document = reference transfer;
  description = if is_empty (truncate 500 note) then text "Virman" else truncate 500 note;
}

-- `record_transfer` with `kind="account"`.
unfoldable pub transfer_between_accounts :
    Option Account → Option Account → Decimal → ℕ → Text → Action Books Document
transfer_between_accounts from_account to_account amount date note = do
  source ← or_raise from_account (required "from_account")
  target ← or_raise to_account (required "to_account")
  same_firm source.company "to_account" target.company
  raise_if (source.id == target.id) (invalid "to_account")
  raise_if (not (source.currency == target.currency)) (field_error "to_account" currency_mismatch)
  check_amount amount
  atomic (do
    transfer ← create_document source.company (cents amount) date (
        DocumentBody.transfer TransferKind.account (some source.id) (some target.id) none none note)
    post (leg (some source) none (chosen credit) blank amount source.currency date transfer note)
    post (leg (some target) none (chosen debit) blank amount source.currency date transfer note)
    pure transfer)

-- `record_transfer` with `kind="cash"`.
unfoldable pub transfer_between_cash :
    Option CashAccount → Option CashAccount → Decimal → ℕ → Text → Action Books Document
transfer_between_cash from_cash to_cash amount date note = do
  source ← or_raise from_cash (required "from_cash")
  target ← or_raise to_cash (required "to_cash")
  same_firm source.company "to_cash" target.company
  raise_if (source.id == target.id) (invalid "to_cash")
  raise_if (not (source.currency == target.currency)) (field_error "to_cash" currency_mismatch)
  check_amount amount
  atomic (do
    transfer ←
        create_document source.company (cents amount) date
          (DocumentBody.transfer TransferKind.cash none none (some source.id) (some target.id) note)
    post (leg none (some source) blank (chosen cash_out) amount source.currency date transfer note)
    post (leg none (some target) blank (chosen cash_in) amount source.currency date transfer note)
    pure transfer)

unfoldable pub record_transfer :
    Choice TransferKind
    → Decimal
    → ℕ
    → Text
    → Option Account
    → Option Account
    → Option CashAccount
    → Option CashAccount
    → Action Books Document
record_transfer (chosen TransferKind.account) amount date note from_account to_account from_cash
      to_cash =
    raise_if (is_some from_cash || is_some to_cash) (invalid "kind")
    >> transfer_between_accounts from_account to_account amount date note
record_transfer (chosen TransferKind.cash) amount date note from_account to_account from_cash
      to_cash =
    raise_if (is_some from_account || is_some to_account) (invalid "kind")
    >> transfer_between_cash from_cash to_cash amount date note
record_transfer _ amount date note from_account to_account from_cash to_cash =
    raise (invalid "kind")
