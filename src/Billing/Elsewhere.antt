-- ===== src/Billing/Elsewhere.antt =====
-- The drafts and their lines under the ledger's calls, which write other tables, and the status
-- and payment day of an invoice.
pub mod Invoices
use shiftlush_api.Prelude.{
  ℕ, ◌+◌, ◌≤◌, ◌≡◌, refl, Bool, true, false, Option, none, some, List, [], ◌∷◌, Text, String,
  update, arith,
}
use shiftlush_api.Errors.{Error}
use shiftlush_api.Action.{Action, modify}
use shiftlush_api.Action.Keeps.{
  Keeps, Keeps-modify, Keeps-Ends, Keeps-pure, Keeps-raise_if, Keeps-bind, keeps_rules,
}
use shiftlush_api.Action.Outcome.{Ends-gets, Ends-guard, Ends-modify, Ends-pure}
use shiftlush_api.Prelude.Int.{ℤ}
use shiftlush_api.Ledger.Decimal.Checked.{check_money-Keeps}
use shiftlush_api.Ledger.Decimal.{Decimal}
use shiftlush_api.Ledger.Models.{
  PaymentMethod, InvoiceStatus, DocumentType, MovementSource, Account, CashAccount, Customer,
  DocumentBody, Document, InvoiceDraft, Movement, Books,
}
use shiftlush_api.Ledger.Posting.{
  Choice, chosen, Posting, post, fresh_company, check_date, check_after_opening, create_movement,
}
use shiftlush_api.Ledger.Reversal.{
  reverse_document, create_mirrors, on_integrity_error, first_of_all,
}
use shiftlush_api.Ledger.Services.{
  same_firm, check_amount, check_method, next_number, create_document,
}
use shiftlush_api.Ledger.Parties.{
  create_account, found_or_created, account_for_customer, default_cash_account,
  create_default_cash_account, create_cash_account, found_or_made,
}
use shiftlush_api.Ledger.Invoices.{
  get_draft, get_customer, is_draft_id, with_settled, unless, post_debit, post_invoice,
  reverse_invoice, sync_invoice_status,
}
use shiftlush_api.Ledger.Collections.{
  create_application, per_invoice, apply_one, apply, record_collection, till_for, collect_invoice,
}
use shiftlush_api.Billing.Papers.{IsPapered, IsPapered-same, IsPapered-drafts}
use shiftlush_api.Billing.Elsewhere.Invoices.{
  tables, next_key, fresh_company-Keeps, post-Keeps, account_for_customer-Keeps, get_customer-Keeps,
  sync_invoice_status-Keeps,
}

next_number-Keeps : (k : ℕ) (prefix : Text) → Keeps IsPapered (next_number k prefix)
unfolding next_number
next_number-Keeps k prefix = search tables depth 9

create_document-Keeps :
    (company amount date : ℕ) (body : DocumentBody)
    → Keeps IsPapered (create_document company amount date body)
unfolding create_document
create_document-Keeps company amount date body =
    Keeps-Ends {Q = λ _ _ t. IsPapered t} _
      (λ s x.
        Ends-gets _ _ _
          (Ends-modify _ _ _ (Ends-pure _ _ (IsPapered-same s _ refl refl (next_key s.next_id) x))))
      λ s x _ t y. y

create_application-Keeps :
    (c : Document) (k amount : ℕ) → Keeps IsPapered (create_application c k amount)
unfolding create_application modify
create_application-Keeps c k amount =
    Keeps-Ends {Q = λ _ _ t. IsPapered t} _
      (λ s x.
        Ends-gets _ _ _ (record { outcome = IsPapered-same s _ refl refl (next_key s.next_id) x }))
      λ s x _ t y. y

same_firm-Keeps : (k : ℕ) (field : String) (c : ℕ) → Keeps IsPapered (same_firm k field c)
unfolding same_firm
same_firm-Keeps k field c = search tables

check_amount-Keeps : (d : Decimal) → Keeps IsPapered (check_amount d)
unfolding check_amount
check_amount-Keeps d = search tables

check_method-Keeps : (m : Choice PaymentMethod) → Keeps IsPapered (check_method m)
unfolding check_method
check_method-Keeps (chosen m) = search tables
check_method-Keeps _ = search tables

per_invoice-Keeps :
    (company : ℕ) (applies : List (InvoiceDraft × Decimal)) (gathered : List (ℕ × ℕ))
    → Keeps IsPapered (per_invoice company applies gathered)
unfolding per_invoice
per_invoice-Keeps company [] gathered = search tables
per_invoice-Keeps company ((invoice, amount) ∷ rest) gathered =
    Keeps-bind _ _ (same_firm-Keeps company "applies" invoice.company)
      λ _. Keeps-bind _ _ (check_money-Keeps _ _) λ _. per_invoice-Keeps company rest _

apply_one-Keeps : (c : Document) (a : Account) (e : ℕ × ℕ) → Keeps IsPapered (apply_one c a e)
unfolding apply_one
apply_one-Keeps c a (pk, amount) = search (tables, create_application-Keeps) depth 16

apply-Keeps :
    (c : Document) (a : Account) (applies : List (InvoiceDraft × Decimal)) (limit : ℤ)
    → Keeps IsPapered (apply c a applies limit)
unfolding apply
apply-Keeps c a applies limit = search (tables, per_invoice-Keeps, apply_one-Keeps) depth 9

record_collection-Keeps :
    (a : Account) (c : CashAccount) (amount : Decimal) (m : Choice PaymentMethod) (date : ℕ)
    (note : Text) (applies : List (InvoiceDraft × Decimal))
    → Keeps IsPapered (record_collection a c amount m date note applies)
unfolding record_collection
record_collection-Keeps a c amount m date note applies =
    search
      (
        tables, same_firm-Keeps, check_method-Keeps, check_amount-Keeps, next_number-Keeps,
        create_document-Keeps, apply-Keeps, post-Keeps, sync_invoice_status-Keeps,
      )
      depth 18

found_or_made-Keeps :
    (found : Option CashAccount) (row : ℕ → CashAccount) → Keeps IsPapered (found_or_made found row)
unfolding create_cash_account
found_or_made-Keeps (some c) row = search tables
found_or_made-Keeps none row =
    Keeps-Ends {Q = λ _ _ t. IsPapered t} _
      (λ s x.
        Ends-gets _ _ _
          (Ends-modify _ _ _ (Ends-pure _ _ (IsPapered-same s _ refl refl (next_key s.next_id) x))))
      λ s x _ t y. y

default_cash_account-Keeps : (k : ℕ) → Keeps IsPapered (default_cash_account k)
unfolding default_cash_account create_default_cash_account
default_cash_account-Keeps k = search (tables, fresh_company-Keeps, found_or_made-Keeps) depth 9

till_for-Keeps : (d : InvoiceDraft) (c : Option CashAccount) → Keeps IsPapered (till_for d c)
till_for-Keeps d (some c) = search tables
till_for-Keeps d none = search (tables, default_cash_account-Keeps) depth 9

pub collect_invoice-Keeps :
    (d : InvoiceDraft) (date : ℕ) (c : Option CashAccount) (m : Choice PaymentMethod) (note : Text)
    → Keeps IsPapered (collect_invoice d date c m note)
unfolding collect_invoice
collect_invoice-Keeps d date c m note =
    search
      (
        tables, till_for-Keeps, get_customer-Keeps, account_for_customer-Keeps,
        record_collection-Keeps,
      )
      depth 9
