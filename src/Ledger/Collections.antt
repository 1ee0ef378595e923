-- ===== src/Ledger/Collections.antt =====
-- apps/ledger/services.py: money received from a party, and the invoices that it pays.
pub mod Bounds
use shiftlush_api.Prelude.{
  ℕ, ◌+◌, Bool, true, false, not, ◌&&◌, ◌||◌, Option, none, some, List, [], ◌∷◌, ◌++◌, Text, text,
  is_some, opt_eq, ltb, find, any, sum_where, map, ◌==◌, if◌then◌else◌,
}
use shiftlush_api.Prelude.Int.{ℤ, pos, neg_part, ◌-ℤ◌, leb_ℤ}
use shiftlush_api.Errors.{
  invalid, required, does_not_exist, unique, field_error, currency_mismatch, overpayment_on_invoice,
}
use shiftlush_api.Action.{
  Action, ⊤, pure, raise, gets, or_raise, raise_if, atomic, modify, for_each, ◌>>=◌, ◌>>◌,
}
use shiftlush_api.Ledger.Decimal.{Decimal, finite, check_money, cents}
use shiftlush_api.Ledger.Models.{
  AccountKind, PaymentMethod, MovementSource, credit, cash_in, Account, CashAccount, DocumentBody,
  Document, CollectionApplication, InvoiceDraft, Books,
}
use shiftlush_api.Ledger.Posting.{Choice, chosen, post}
use shiftlush_api.Ledger.Services.{
  same_firm, check_amount, check_method, next_number, collection_prefix, create_document, reference,
  lock, stamp_cancelled, stamp,
}
use shiftlush_api.Ledger.Parties.{default_cash_account, account_for_customer}
use shiftlush_api.Ledger.Invoices.{
  is_payable, get_customer, invoice_remaining, sync_invoice_status, applied,
}

-- `per_invoice[pk] += amount`, the keys kept in the order that `sorted` gives them.
unfoldable pub add_to : ℕ → ℕ → List (ℕ × ℕ) → List (ℕ × ℕ)
add_to pk amount [] = (pk, amount) ∷ []
add_to pk amount (e ∷ rest) =
    if ltb pk e.0
    then (pk, amount) ∷ e ∷ rest
    else if pk == e.0
    then (pk, e.1 + amount) ∷ rest
    else e ∷ add_to pk amount rest

unfoldable pub per_invoice :
    ℕ → List (InvoiceDraft × Decimal) → List (ℕ × ℕ) → Action Books (List (ℕ × ℕ))
per_invoice company [] gathered = pure gathered
per_invoice company ((invoice, amount) ∷ rest) gathered = do
  same_firm company "applies" invoice.company
  check_money (invalid "applies") amount
  per_invoice company rest (add_to invoice.id (cents amount) gathered)

-- `sum(per_invoice.values(), _ZERO)`
unfoldable pub total_of : List (ℕ × ℕ) → ℕ
total_of [] = 0
total_of (e ∷ rest) = e.1 + total_of rest

abbrev is_customer : AccountKind → Bool
is_customer AccountKind.customer = true
is_customer _ = false

abbrev pub is_firm_draft : ℕ → ℕ → InvoiceDraft → Bool
is_firm_draft company k d = d.id == k && d.company == company

-- The invoice is not one that the collection's account can pay.
abbrev pub is_unpayable : Account → InvoiceDraft → Bool
is_unpayable account invoice =
    not (is_payable invoice.status)
    || is_some invoice.cancelled_at
    || not (is_customer account.kind)
    || not (opt_eq (some invoice.customer) account.customer)

abbrev pub pairs : ℕ → ℕ → CollectionApplication → Bool
pairs collection invoice a = a.collection == collection && a.invoice == invoice

unfoldable pub create_application : Document → ℕ → ℕ → Action Books ⊤
create_application collection invoice amount = do
  id ← gets (λ s. s.next_id)
  let row : CollectionApplication = record {
    id = id;
    company = collection.company;
    collection = collection.id;
    invoice = invoice;
    amount = amount;
    is_deleted = false;
  }
  modify (λ s. record s { applications = s.applications ++ (row ∷ []); next_id = id + 1 })

-- One turn of the second loop of `_apply`.
unfoldable pub apply_one : Document → Account → ℕ × ℕ → Action Books ⊤
apply_one collection account (pk, amount) = do
  found ← gets (λ s. find (is_firm_draft collection.company pk) s.drafts)
  invoice ← or_raise found (does_not_exist "applies")
  raise_if (is_unpayable account invoice) (invalid "applies")
  raise_if (not (invoice.currency == account.currency)) (field_error "applies" currency_mismatch)
  remaining ← gets (invoice_remaining invoice)
  raise_if (not (leb_ℤ (pos amount) remaining)) (field_error "applies" overpayment_on_invoice)
  paid ← gets (λ s. any (pairs collection.id pk) s.applications)
  raise_if paid (unique "applies")
  create_application collection pk amount

-- `_apply`, with the limit that the caller gives.
unfoldable pub apply : Document → Account → List (InvoiceDraft × Decimal) → ℤ → Action Books ⊤
apply collection account applies limit = do
  gathered ← per_invoice collection.company applies []
  raise_if (not (leb_ℤ (pos (total_of gathered)) limit)) (invalid "applies")
  for_each gathered (apply_one collection account)

-- `sorted({invoice.pk for invoice, _ in applies})`
unfoldable pub insert_key : ℕ → List ℕ → List ℕ
insert_key k [] = k ∷ []
insert_key k (j ∷ rest) =
    if ltb k j then k ∷ j ∷ rest else if k == j then j ∷ rest else j ∷ insert_key k rest

unfoldable pub sorted_keys : List ℕ → List ℕ
unfolding insert_key
sorted_keys [] = []
sorted_keys (k ∷ rest) = insert_key k (sorted_keys rest)

abbrev pub invoice_ids : List (InvoiceDraft × Decimal) → List ℕ
invoice_ids applies = sorted_keys (map (λ e. e.0.id) applies)

abbrev pub sync : ℕ → Action Books ⊤
sync k = sync_invoice_status k >> pure tt

unfoldable pub record_collection :
    Account
    → CashAccount
    → Decimal
    → Choice PaymentMethod
    → ℕ
    → Text
    → List (InvoiceDraft × Decimal)
    → Action Books Document
record_collection account cash_account amount method date note applies = do
  same_firm account.company "cash_account" cash_account.company
  chosen_method ← check_method method
  check_amount amount
  atomic (do
    number ← next_number account.company collection_prefix
    collection ←
        create_document account.company (cents amount) date
          (DocumentBody.collection number account.id cash_account.id chosen_method note)
    apply collection account applies (pos (cents amount))
    post (record {
      account = some account;
      cash_account = some cash_account;
      direction = chosen credit;
      cash_direction = chosen cash_in;
      amount = amount;
      currency = account.currency;
      date = date;
      source = chosen MovementSource.collection;
      document = reference collection;
      description = text "Tahsilat " ++ number;
    })
    for_each (invoice_ids applies) sync
    pure collection)

abbrev pub applies_from : ℕ → CollectionApplication → Bool
applies_from collection a = a.collection == collection && not a.is_deleted

-- `_applied_invoice_ids`, in key order.
unfoldable pub applied_invoice_ids : ℕ → List CollectionApplication → List ℕ
applied_invoice_ids collection [] = []
applied_invoice_ids collection (a ∷ rest) =
    if applies_from collection a
    then insert_key a.invoice (applied_invoice_ids collection rest)
    else applied_invoice_ids collection rest

-- `cancel_collection` when no other caller adds an application meanwhile: its first attempt.
unfoldable pub cancel_collection : ℕ → Action Books Document
cancel_collection k = atomic (do
  locked ← lock k
  invoices ← gets (λ s. applied_invoice_ids k s.applications)
  stamp_cancelled locked
  for_each invoices sync
  now ← gets (λ s. s.now)
  pure (stamp now locked))

unfoldable pub get_account : Option ℕ → Action Books Account
get_account none = raise (does_not_exist "account")
get_account (some k) = do
  found ← gets (λ s. find (λ (a : Account). a.id == k) s.accounts)
  or_raise found (does_not_exist "account")

abbrev pub account_of_body : DocumentBody → Option ℕ
account_of_body (DocumentBody.collection _ account _ _ _) = some account
account_of_body _ = none

-- The collection's amount less its standing applications.
unfoldable pub unallocated : Document → Books → ℤ
unallocated d s = pos d.amount -ℤ pos (sum_where (applies_from d.id) applied s.applications)

abbrev pub is_nil : {A : Type 0} → List A → Bool
is_nil [] = true
is_nil (_ ∷ _) = false

unfoldable pub apply_collection : ℕ → List (InvoiceDraft × Decimal) → Action Books Document
apply_collection k applies = do
  raise_if (is_nil applies) (required "applies")
  atomic (do
    locked ← lock k
    limit ← gets (unallocated locked)
    account ← get_account (account_of_body locked.body)
    apply locked account applies limit
    for_each (invoice_ids applies) sync
    pure locked)

abbrev pub till_for : InvoiceDraft → Option CashAccount → Action Books CashAccount
till_for draft (some c) = pure c
till_for draft none = do
  till ← default_cash_account draft.company
  raise_if (not (till.currency == draft.currency)) (field_error "cash_account" currency_mismatch)
  pure till

-- What an invoice still owes, as an amount to collect.
abbrev pub owed : ℤ → Decimal
owed (pos n) = finite false n 2
owed z = finite true (neg_part z) 2

unfoldable pub collect_invoice :
    InvoiceDraft → ℕ → Option CashAccount → Choice PaymentMethod → Text → Action Books Document
collect_invoice draft date cash_account method note = do
  till ← till_for draft cash_account
  remaining ← gets (invoice_remaining draft)
  customer ← get_customer draft.customer
  account ← account_for_customer customer draft.currency
  record_collection account till (owed remaining) method date note ((draft, owed remaining) ∷ [])
