-- ===== src/Billing/Elsewhere/Invoices.antt =====
-- The drafts and their lines under the posting and the reversal of invoices.
use shiftlush_api.Prelude.{
  ℕ, ◌+◌, ◌≤◌, ◌≡◌, refl, Bool, true, false, Option, none, some, List, [], ◌∷◌, update, arith,
}
use shiftlush_api.Errors.{Error}
use shiftlush_api.Action.{Action, modify}
use shiftlush_api.Action.Keeps.{
  Keeps, Keeps-modify, Keeps-Ends, Keeps-pure, Keeps-bind, keeps_rules,
}
use shiftlush_api.Action.Outcome.{Ends-gets, Ends-guard, Ends-modify, Ends-pure}
use shiftlush_api.Ledger.Decimal.Checked.{check_money-Keeps}
use shiftlush_api.Ledger.Models.{
  InvoiceStatus, DocumentType, MovementSource, Account, Customer, InvoiceDraft, Movement, Books,
}
use shiftlush_api.Ledger.Posting.{
  Posting, post, fresh_company, check_date, check_after_opening, create_movement,
}
use shiftlush_api.Ledger.Reversal.{
  reverse_document, create_mirrors, on_integrity_error, first_of_all,
}
use shiftlush_api.Ledger.Parties.{create_account, found_or_created, account_for_customer}
use shiftlush_api.Ledger.Invoices.{
  get_draft, get_customer, is_draft_id, with_settled, unless, post_debit, post_invoice,
  reverse_invoice, sync_invoice_status,
}
use shiftlush_api.Billing.Papers.{IsPapered, IsPapered-same, IsPapered-drafts}

pub same_key : (n : ℕ) → n ≤ n
same_key n = omega arith

pub next_key : (n : ℕ) → n ≤ n + 1
next_key n = omega arith

pub Keeps-tables :
    (g : Books → Books)
    → ((s : Books) → (g s).lines ≡ s.lines)
    → ((s : Books) → (g s).drafts ≡ s.drafts)
    → ((s : Books) → s.next_id ≤ (g s).next_id)
    → Keeps IsPapered (modify g)
Keeps-tables g l d n = Keeps-modify g λ s. IsPapered-same s (g s) (l s) (d s) (n s)

pub ruleset tables = (keeps_rules, check_money-Keeps, Keeps-tables, refl, same_key, next_key)

create_movement-Keeps : (row : ℕ → Movement) → Keeps IsPapered (create_movement row)
unfolding create_movement
create_movement-Keeps row =
    Keeps-Ends {Q = λ _ _ t. IsPapered t} _
      (λ s x. Ends-gets _ _ _ (
        Ends-guard _ _ _ _ x λ _. Ends-gets _ _ _ (
          Ends-guard _ _ _ _ x λ _.
            Ends-modify _ _ _
              (Ends-pure _ _ (IsPapered-same s _ refl refl (next_key s.next_id) x)))))
      λ s x _ t y. y

pub fresh_company-Keeps : (k : ℕ) → Keeps IsPapered (fresh_company k)
unfolding fresh_company
fresh_company-Keeps k = search tables

pub post-Keeps : (p : Posting) → Keeps IsPapered (post p)
unfolding post check_date check_after_opening
post-Keeps p = search (tables, create_movement-Keeps, fresh_company-Keeps) depth 24

create_account-Keeps : (row : ℕ → Account) → Keeps IsPapered (create_account row)
unfolding create_account
create_account-Keeps row =
    Keeps-Ends {Q = λ _ _ t. IsPapered t} _
      (λ s x.
        Ends-gets _ _ _
          (Ends-modify _ _ _ (Ends-pure _ _ (IsPapered-same s _ refl refl (next_key s.next_id) x))))
      λ s x _ t y. y

found_or_created-Keeps :
    (row : ℕ → Account) (found : Option Account) → Keeps IsPapered (found_or_created found row)
found_or_created-Keeps row (some a) = search tables
found_or_created-Keeps row none = create_account-Keeps row

pub account_for_customer-Keeps :
    (c : Customer) (currency : ℕ) → Keeps IsPapered (account_for_customer c currency)
unfolding account_for_customer
account_for_customer-Keeps c currency = Keeps-bind _ _ (search tables) (found_or_created-Keeps _)

get_draft-Keeps : (k : ℕ) → Keeps IsPapered (get_draft k)
unfolding get_draft
get_draft-Keeps k = search tables

pub get_customer-Keeps : (k : ℕ) → Keeps IsPapered (get_customer k)
unfolding get_customer
get_customer-Keeps k = search tables

unless-Keeps :
    {A : Type 0} (b : Bool) (m : Action Books A) → Keeps IsPapered m → Keeps IsPapered (unless b m)
unless-Keeps true m k = search tables
unless-Keeps false m k = search tables

post_debit-Keeps : (d : InvoiceDraft) (date : ℕ) → Keeps IsPapered (post_debit d date)
unfolding post_debit
post_debit-Keeps d date =
    search (tables, post-Keeps, get_customer-Keeps, account_for_customer-Keeps)

pub post_invoice-Keeps : (k : ℕ) (date : Option ℕ) → Keeps IsPapered (post_invoice k date)
unfolding post_invoice
post_invoice-Keeps k date =
    search (tables, get_draft-Keeps, post_debit-Keeps, unless-Keeps) depth 12

settled_drafts-Keeps :
    (k : ℕ) (result : InvoiceStatus × Option ℕ)
    → Keeps IsPapered
        (modify (λ s. record s { drafts = update (is_draft_id k) (with_settled result) s.drafts }))
settled_drafts-Keeps k (status, paid_on) =
    Keeps-modify _ λ s. IsPapered-drafts _ _ s (λ d. refl) (λ ls d t. t)

pub sync_invoice_status-Keeps : (k : ℕ) → Keeps IsPapered (sync_invoice_status k)
unfolding sync_invoice_status
sync_invoice_status-Keeps k = search (keeps_rules, get_draft-Keeps, settled_drafts-Keeps) depth 9

create_mirrors-Keeps :
    (date : ℕ) (source : MovementSource) (ms : List Movement)
    → Keeps IsPapered (create_mirrors date source ms)
unfolding create_mirrors
create_mirrors-Keeps date source [] = search tables
create_mirrors-Keeps date source (m ∷ ms) =
    Keeps-bind _ _ (create_movement-Keeps _)
      λ mirror. Keeps-bind _ _ (create_mirrors-Keeps date source ms) λ mirrors. Keeps-pure _

on_integrity_error-Keeps :
    {A : Type 0} (e : Error) (m : Action Books A)
    → Keeps IsPapered m
    → Keeps IsPapered (on_integrity_error e m)
unfolding on_integrity_error
on_integrity_error-Keeps e m k = record { after = k.after }

first_of_all-Keeps : (ms : List Movement) → Keeps IsPapered (first_of_all ms)
unfolding first_of_all
first_of_all-Keeps [] = search tables
first_of_all-Keeps (m ∷ ms) = search tables

reverse_document-Keeps :
    (t : DocumentType) (k date : ℕ) (source : MovementSource)
    → Keeps IsPapered (reverse_document t k date source)
unfolding reverse_document check_date
reverse_document-Keeps t k date source =
    search
      (
        tables, on_integrity_error-Keeps, first_of_all-Keeps, fresh_company-Keeps,
        create_mirrors-Keeps,
      )
      depth 16

pub reverse_invoice-Keeps : (k : ℕ) → Keeps IsPapered (reverse_invoice k)
unfolding reverse_invoice
reverse_invoice-Keeps k =
    search (tables, get_draft-Keeps, reverse_document-Keeps, unless-Keeps) depth 12
