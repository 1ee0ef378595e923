-- ===== src/Ledger/Calls.antt =====
-- The service calls that move money, as one type: what each does to the books, and any sequence.
pub mod Growth
pub mod Rollback
use shiftlush_api.Prelude.{
  ℕ, ◌≡◌, refl, Option, none, some, List, [], ◌∷◌, Text, All, Bool, true, false,
}
use shiftlush_api.Action.{Action, Result, ok, err, ⊤, pure, ◌>>=◌, ◌>>◌}
use shiftlush_api.Action.Keeps.{Keeps, Keeps-pure, Keeps-bind, Keeps-raise_if}
use shiftlush_api.Prelude.Int.{ℤ}
use shiftlush_api.Ledger.Decimal.{Decimal, cents}
use shiftlush_api.Ledger.Models.{
  TransferKind, PaymentMethod, Direction, DocumentType, MovementSource, Account, CashAccount,
  InvoiceDraft, Movement, Document, Books,
}
use shiftlush_api.Ledger.Posting.{Choice, blank, other, chosen, Posting, post}
use shiftlush_api.Ledger.Reversal.{reverse_document}
use shiftlush_api.Ledger.Services.{stamp_cancelled, cancel}
use shiftlush_api.Ledger.Documents.{record_payment_out, record_manual_entry}
use shiftlush_api.Ledger.Transfers.{
  transfer_between_accounts, transfer_between_cash, record_transfer,
}
use shiftlush_api.Ledger.Openings.{record_opening}
use shiftlush_api.Ledger.Invoices.{unless, post_debit, post_invoice, reverse_invoice}
use shiftlush_api.Ledger.Collections.{
  add_to, per_invoice, apply_one, apply, record_collection, cancel_collection, apply_collection,
}
use shiftlush_api.Ledger.Invariant.{
  IsGrown, IsGrown-refl, IsWellFormed, post-Keeps, reverse_document-Keeps, sound_of_grown,
}
use shiftlush_api.Ledger.Invariant.Parts.{parts, same_firm-Keeps}

-- A call, with its arguments: rows as the views hand them over, and documents by their keys.
pub data Call : Type 0 where
  collect :
      Account
      → CashAccount
      → Decimal
      → Choice PaymentMethod
      → ℕ
      → Text
      → List (InvoiceDraft × Decimal)
      → Call
  apply_to : ℕ → List (InvoiceDraft × Decimal) → Call
  uncollect : ℕ → Call
  pay_out : Account → CashAccount → Decimal → Choice PaymentMethod → ℕ → Text → Call
  enter : Account → Choice Direction → Decimal → ℕ → Text → Call
  move :
      Choice TransferKind
      → Decimal
      → ℕ
      → Text
      → Option Account
      → Option Account
      → Option CashAccount
      → Option CashAccount
      → Call
  open_with : Choice Direction → Decimal → ℕ → Option Account → Option CashAccount → Call
  cancel_document : ℕ → Call
  post_invoice_of : ℕ → Option ℕ → Call
  reverse_invoice_of : ℕ → Call

abbrev done : {A : Type 0} → Action Books A → Action Books ⊤
done m = m >> pure tt

unfoldable pub run : Call → Action Books ⊤
run (collect account cash amount method date note applies) =
    done (record_collection account cash amount method date note applies)
run (apply_to k applies) = done (apply_collection k applies)
run (uncollect k) = done (cancel_collection k)
run (pay_out account cash amount method date note) =
    done (record_payment_out account cash amount method date note)
run (enter account direction amount date reason) =
    done (record_manual_entry account direction amount date reason)
run (move kind amount date note from_account to_account from_cash to_cash) =
    done (record_transfer kind amount date note from_account to_account from_cash to_cash)
run (open_with direction amount date account cash) =
    done (record_opening direction amount date account cash)
run (cancel_document k) = done (cancel k)
run (post_invoice_of k date) = done (post_invoice k date)
run (reverse_invoice_of k) = done (reverse_invoice k)

-- The books after a sequence of calls, whatever each of them answers.
unfoldable pub run_all : List Call → Books → Books
run_all [] s = s
run_all (c ∷ cs) s = run_all cs (run c s).1
