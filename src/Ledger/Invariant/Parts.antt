-- ===== src/Ledger/Invariant/Parts.antt =====
-- The growth of the books under the parts that the ledger's service calls share.
use shiftlush_api.Prelude.{
  String, ℕ, ◌≡◌, refl, Option, none, some, List, [], ◌∷◌, Text, All, Bool, true, false,
}
use shiftlush_api.Action.{modify}
use shiftlush_api.Action.Keeps.{
  Keeps, Keeps-modify, Keeps-pure, Keeps-raise, Keeps-bind, keeps_rules,
}
use shiftlush_api.Ledger.Decimal.Checked.{check_money-Keeps}
use shiftlush_api.Ledger.Decimal.{Decimal}
use shiftlush_api.Ledger.Models.{
  PaymentMethod, Direction, Account, CashAccount, DocumentBody, Document, Books, Customer,
}
use shiftlush_api.Ledger.Posting.{Choice, chosen, fresh_company}
use shiftlush_api.Ledger.Services.{
  same_firm, check_amount, check_method, next_number, create_document, lock,
}
use shiftlush_api.Ledger.Documents.{check_direction}
use shiftlush_api.Ledger.Openings.{one_side}
use shiftlush_api.Ledger.Parties.{create_account, found_or_created, account_for_customer}
use shiftlush_api.Ledger.Invoices.{get_draft, get_customer, sync_invoice_status}
use shiftlush_api.Ledger.Collections.{create_application, get_account}
use shiftlush_api.Ledger.Invariant.{IsGrown, IsGrown-same}

module _ {before : Books} where
  -- A write to other tables than the movements.
  pub Keeps-elsewhere :
      (g : Books → Books)
      → ((s : Books) → (g s).movements ≡ s.movements)
      → ((s : Books) → (g s).today ≡ s.today)
      → Keeps (IsGrown before) (modify g)
  Keeps-elsewhere g e d = Keeps-modify g λ s. IsGrown-same s (g s) (e s) (d s)

pub ruleset elsewhere = (keeps_rules, Keeps-elsewhere, check_money-Keeps, refl)

module _ {before : Books} where
  pub next_number-Keeps : (k : ℕ) (prefix : Text) → Keeps (IsGrown before) (next_number k prefix)
  unfolding next_number
  next_number-Keeps k prefix = search elsewhere

  pub create_document-Keeps :
      (company amount date : ℕ) (body : DocumentBody)
      → Keeps (IsGrown before) (create_document company amount date body)
  unfolding create_document
  create_document-Keeps company amount date body = search elsewhere

  pub same_firm-Keeps :
      (k : ℕ) (field : String) (c : ℕ) → Keeps (IsGrown before) (same_firm k field c)
  unfolding same_firm
  same_firm-Keeps k field c = search elsewhere

  pub check_amount-Keeps : (d : Decimal) → Keeps (IsGrown before) (check_amount d)
  unfolding check_amount
  check_amount-Keeps d = search elsewhere

  pub check_method-Keeps : (m : Choice PaymentMethod) → Keeps (IsGrown before) (check_method m)
  unfolding check_method
  check_method-Keeps (chosen m) = search elsewhere
  check_method-Keeps _ = search elsewhere

  pub check_direction-Keeps : (d : Choice Direction) → Keeps (IsGrown before) (check_direction d)
  unfolding check_direction
  check_direction-Keeps (chosen d) = search elsewhere
  check_direction-Keeps _ = search elsewhere

  pub one_side-Keeps :
      (a : Option Account) (c : Option CashAccount) → Keeps (IsGrown before) (one_side a c)
  unfolding one_side
  one_side-Keeps (some a) none = search elsewhere
  one_side-Keeps none (some c) = search elsewhere
  one_side-Keeps _ _ = search elsewhere

  pub lock-Keeps : (k : ℕ) → Keeps (IsGrown before) (lock k)
  unfolding lock
  lock-Keeps k = search elsewhere

  pub get_draft-Keeps : (k : ℕ) → Keeps (IsGrown before) (get_draft k)
  unfolding get_draft
  get_draft-Keeps k = search elsewhere

  pub get_customer-Keeps : (k : ℕ) → Keeps (IsGrown before) (get_customer k)
  unfolding get_customer
  get_customer-Keeps k = search elsewhere

  pub get_account-Keeps : (k : Option ℕ) → Keeps (IsGrown before) (get_account k)
  unfolding get_account
  get_account-Keeps none = search elsewhere
  get_account-Keeps (some k) = search elsewhere

  pub fresh_company-Keeps : (k : ℕ) → Keeps (IsGrown before) (fresh_company k)
  unfolding fresh_company
  fresh_company-Keeps k = search elsewhere

  pub create_account-Keeps : (row : ℕ → Account) → Keeps (IsGrown before) (create_account row)
  unfolding create_account
  create_account-Keeps row = search elsewhere

  pub found_or_created-Keeps :
      (row : ℕ → Account) (found : Option Account)
      → Keeps (IsGrown before) (found_or_created found row)
  found_or_created-Keeps row (some a) = search elsewhere
  found_or_created-Keeps row none = create_account-Keeps row

  pub account_for_customer-Keeps :
      (c : Customer) (currency : ℕ) → Keeps (IsGrown before) (account_for_customer c currency)
  unfolding account_for_customer
  account_for_customer-Keeps c currency =
      Keeps-bind _ _ (search elsewhere) (found_or_created-Keeps _)

  pub create_application-Keeps :
      (c : Document) (k amount : ℕ) → Keeps (IsGrown before) (create_application c k amount)
  unfolding create_application
  create_application-Keeps c k amount = search elsewhere

  pub sync_invoice_status-Keeps : (k : ℕ) → Keeps (IsGrown before) (sync_invoice_status k)
  unfolding sync_invoice_status
  sync_invoice_status-Keeps k = search (elsewhere, get_draft-Keeps)

pub ruleset parts = (
  elsewhere, next_number-Keeps, create_document-Keeps, same_firm-Keeps, check_amount-Keeps,
  check_method-Keeps, check_direction-Keeps, one_side-Keeps, lock-Keeps, get_draft-Keeps,
  get_customer-Keeps, get_account-Keeps, fresh_company-Keeps, account_for_customer-Keeps,
  create_application-Keeps, sync_invoice_status-Keeps,
)
