-- ===== src/Ledger/Calls/Growth.antt =====
-- What any sequence of service calls keeps of the books.
use shiftlush_api.Prelude.{ℕ, Option, List, [], ◌∷◌, Text, All, Bool, true, false}
use shiftlush_api.Action.{Action}
use shiftlush_api.Action.Keeps.{Keeps, Keeps-bind}
use shiftlush_api.Prelude.Int.{ℤ}
use shiftlush_api.Ledger.Decimal.Checked.{check_money-Keeps}
use shiftlush_api.Ledger.Decimal.{Decimal, cents}
use shiftlush_api.Ledger.Models.{
  TransferKind, PaymentMethod, Direction, DocumentType, MovementSource, Account, CashAccount,
  InvoiceDraft, Document, Books,
}
use shiftlush_api.Ledger.Posting.{Choice, chosen, Posting, post}
use shiftlush_api.Ledger.Reversal.{reverse_document}
use shiftlush_api.Ledger.Calls.{Call, run, run_all}
use shiftlush_api.Ledger.Services.{stamp_cancelled, cancel}
use shiftlush_api.Ledger.Documents.{record_payment_out, record_manual_entry}
use shiftlush_api.Ledger.Transfers.{
  transfer_between_accounts, transfer_between_cash, record_transfer,
}
use shiftlush_api.Ledger.Openings.{record_opening}
use shiftlush_api.Ledger.Invoices.{unless, post_debit, post_invoice, reverse_invoice}
use shiftlush_api.Ledger.Collections.{
  add_to, per_invoice, apply_one, apply, record_collection, cancel_collection, apply_collection,
}
use shiftlush_api.Ledger.Invariant.{
  IsGrown, IsGrown-refl, IsWellFormed, post-Keeps, reverse_document-Keeps,
}
use shiftlush_api.Ledger.Invariant.Parts.{parts, same_firm-Keeps}

module _ {before : Books} (sound : All IsWellFormed before.movements) where
  posting-Keeps : (p : Posting) → Keeps (IsGrown before) (post p)
  posting-Keeps p = post-Keeps {before = before} sound p

  document_reversal-Keeps :
      (t : DocumentType) (k date : ℕ) (source : MovementSource)
      → Keeps (IsGrown before) (reverse_document t k date source)
  document_reversal-Keeps t k date source =
      reverse_document-Keeps {before = before} sound t k date source

  stamp_cancelled-Keeps : (d : Document) → Keeps (IsGrown before) (stamp_cancelled d)
  unfolding stamp_cancelled
  stamp_cancelled-Keeps d = search (parts, document_reversal-Keeps)

  cancel-Keeps : (k : ℕ) → Keeps (IsGrown before) (cancel k)
  unfolding cancel
  cancel-Keeps k = search (parts, stamp_cancelled-Keeps) depth 9

  record_payment_out-Keeps :
      (account : Account) (cash : CashAccount) (amount : Decimal) (method : Choice PaymentMethod)
      (date : ℕ) (note : Text)
      → Keeps (IsGrown before) (record_payment_out account cash amount method date note)
  unfolding record_payment_out
  record_payment_out-Keeps account cash amount method date note =
      search (parts, posting-Keeps) depth 12

  record_manual_entry-Keeps :
      (account : Account) (direction : Choice Direction) (amount : Decimal) (date : ℕ)
      (reason : Text)
      → Keeps (IsGrown before) (record_manual_entry account direction amount date reason)
  unfolding record_manual_entry
  record_manual_entry-Keeps account direction amount date reason =
      search (parts, posting-Keeps) depth 12

  transfer_between_accounts-Keeps :
      (source target : Option Account) (amount : Decimal) (date : ℕ) (note : Text)
      → Keeps (IsGrown before) (transfer_between_accounts source target amount date note)
  unfolding transfer_between_accounts
  transfer_between_accounts-Keeps source target amount date note =
      search (parts, posting-Keeps) depth 15

  transfer_between_cash-Keeps :
      (source target : Option CashAccount) (amount : Decimal) (date : ℕ) (note : Text)
      → Keeps (IsGrown before) (transfer_between_cash source target amount date note)
  unfolding transfer_between_cash
  transfer_between_cash-Keeps source target amount date note =
      search (parts, posting-Keeps) depth 15

  record_transfer-Keeps :
      (kind : Choice TransferKind) (amount : Decimal) (date : ℕ) (note : Text)
      (a b : Option Account) (c d : Option CashAccount)
      → Keeps (IsGrown before) (record_transfer kind amount date note a b c d)
  unfolding record_transfer
  record_transfer-Keeps (chosen TransferKind.account) amount date note a b c d =
      search (parts, transfer_between_accounts-Keeps)
  record_transfer-Keeps (chosen TransferKind.cash) amount date note a b c d =
      search (parts, transfer_between_cash-Keeps)
  record_transfer-Keeps _ amount date note a b c d = search parts

  record_opening-Keeps :
      (direction : Choice Direction) (amount : Decimal) (date : ℕ) (account : Option Account)
      (cash : Option CashAccount)
      → Keeps (IsGrown before) (record_opening direction amount date account cash)
  unfolding record_opening
  record_opening-Keeps direction amount date account cash = search (parts, posting-Keeps) depth 14

  unless-Keeps :
      {A : Type 0} (b : Bool) (m : Action Books A)
      → Keeps (IsGrown before) m
      → Keeps (IsGrown before) (unless b m)
  unless-Keeps true m k = search parts
  unless-Keeps false m k = search parts

  post_debit-Keeps : (d : InvoiceDraft) (date : ℕ) → Keeps (IsGrown before) (post_debit d date)
  unfolding post_debit
  post_debit-Keeps d date = search (parts, posting-Keeps)

  post_invoice-Keeps : (k : ℕ) (date : Option ℕ) → Keeps (IsGrown before) (post_invoice k date)
  unfolding post_invoice
  post_invoice-Keeps k date = search (parts, post_debit-Keeps, unless-Keeps) depth 10

  reverse_invoice-Keeps : (k : ℕ) → Keeps (IsGrown before) (reverse_invoice k)
  unfolding reverse_invoice
  reverse_invoice-Keeps k = search (parts, document_reversal-Keeps, unless-Keeps) depth 10

  per_invoice-Keeps :
      (company : ℕ) (applies : List (InvoiceDraft × Decimal)) (gathered : List (ℕ × ℕ))
      → Keeps (IsGrown before) (per_invoice company applies gathered)
  unfolding per_invoice
  per_invoice-Keeps company [] gathered = search parts
  per_invoice-Keeps company ((invoice, amount) ∷ rest) gathered =
      Keeps-bind _ _ (same_firm-Keeps company "applies" invoice.company) λ _.
        Keeps-bind _ _ (check_money-Keeps _ _)
          λ _. per_invoice-Keeps company rest (add_to invoice.id (cents amount) gathered)

  apply_one-Keeps :
      (c : Document) (account : Account) (e : ℕ × ℕ)
      → Keeps (IsGrown before) (apply_one c account e)
  unfolding apply_one
  apply_one-Keeps c account e = search parts depth 12

  apply-Keeps :
      (c : Document) (account : Account) (applies : List (InvoiceDraft × Decimal)) (limit : ℤ)
      → Keeps (IsGrown before) (apply c account applies limit)
  unfolding apply
  apply-Keeps c account applies limit = search (parts, per_invoice-Keeps, apply_one-Keeps)

  record_collection-Keeps :
      (account : Account) (cash : CashAccount) (amount : Decimal) (method : Choice PaymentMethod)
      (date : ℕ) (note : Text) (applies : List (InvoiceDraft × Decimal))
      → Keeps (IsGrown before) (record_collection account cash amount method date note applies)
  unfolding record_collection
  record_collection-Keeps account cash amount method date note applies =
      search (parts, posting-Keeps, apply-Keeps) depth 14

  cancel_collection-Keeps : (k : ℕ) → Keeps (IsGrown before) (cancel_collection k)
  unfolding cancel_collection
  cancel_collection-Keeps k = search (parts, stamp_cancelled-Keeps) depth 10

  apply_collection-Keeps :
      (k : ℕ) (applies : List (InvoiceDraft × Decimal))
      → Keeps (IsGrown before) (apply_collection k applies)
  unfolding apply_collection
  apply_collection-Keeps k applies = search (parts, apply-Keeps) depth 11

  run-Keeps : (c : Call) → Keeps (IsGrown before) (run c)
  unfolding run
  run-Keeps (Call.collect account cash amount method date note applies) =
      search (parts, record_collection-Keeps)
  run-Keeps (Call.apply_to k applies) = search (parts, apply_collection-Keeps)
  run-Keeps (Call.uncollect k) = search (parts, cancel_collection-Keeps)
  run-Keeps (Call.pay_out account cash amount method date note) =
      search (parts, record_payment_out-Keeps)
  run-Keeps (Call.enter account direction amount date reason) =
      search (parts, record_manual_entry-Keeps)
  run-Keeps (Call.move kind amount date note a b c d) = search (parts, record_transfer-Keeps)
  run-Keeps (Call.open_with direction amount date account cash) =
      search (parts, record_opening-Keeps)
  run-Keeps (Call.cancel_document k) = search (parts, cancel-Keeps)
  run-Keeps (Call.post_invoice_of k date) = search (parts, post_invoice-Keeps)
  run-Keeps (Call.reverse_invoice_of k) = search (parts, reverse_invoice-Keeps)

  run_all-Keeps : (cs : List Call) (s : Books) → IsGrown before s → IsGrown before (run_all cs s)
  unfolding run_all
  run_all-Keeps [] s g = g
  run_all-Keeps (c ∷ cs) s g = run_all-Keeps cs _ ((run-Keeps c).after s g)

-- Where the movements meet the table's constraints, any sequence of service calls, refused ones
-- included, only adds movements to the books: those present before stay as they are and where
-- they are, each new one meets the constraints, and none is dated after today.
pub run_all-IsGrown :
    (cs : List Call) (s : Books) → All IsWellFormed s.movements → IsGrown s (run_all cs s)
run_all-IsGrown cs s sound = run_all-Keeps sound cs s (IsGrown-refl s)
