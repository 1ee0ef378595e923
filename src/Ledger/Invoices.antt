-- ===== src/Ledger/Invoices.antt =====
-- apps/ledger/services.py: an invoice's debit, what collections have paid of it, and its status.
use shiftlush_api.Prelude.{
  ℕ, Bool, true, false, not, ◌&&◌, ◌||◌, Option, none, some, List, [], ◌∷◌, ◌++◌, Text, text,
  is_none, is_some, ltb, find, any, update, sum_where, truncate, max, ◌==◌, if◌then◌else◌,
}
use shiftlush_api.Prelude.Int.{ℤ, pos, ◌-ℤ◌, leb_ℤ}
use shiftlush_api.Errors.{invalid, required, does_not_exist, conflict, invoice_has_collections}
use shiftlush_api.Action.{Action, pure, gets, or_raise, raise_if, atomic, modify, ◌>>=◌, ◌>>◌}
use shiftlush_api.Calendar.{day_text}
use shiftlush_api.Ledger.Decimal.{finite}
use shiftlush_api.Ledger.Models.{
  InvoiceStatus, MovementSource, debit, DocumentType, Document, CollectionApplication, Customer,
  InvoiceDraft, Movement, Books,
}
use shiftlush_api.Ledger.Posting.{blank, chosen, post, is_of}
use shiftlush_api.Ledger.Reversal.{reverse_document}
use shiftlush_api.Ledger.Services.{has_id}
use shiftlush_api.Ledger.Parties.{account_for_customer}

-- A collection that stands: neither cancelled nor deleted.
unfoldable pub is_standing : ℕ → Document → Bool
is_standing k d = has_id k d && is_none d.cancelled_at && not d.is_deleted

-- An application of a standing collection to the invoice.
unfoldable pub pays : ℕ → List Document → CollectionApplication → Bool
unfolding is_standing
pays invoice ds a = a.invoice == invoice && not a.is_deleted && any (is_standing a.collection) ds

abbrev pub applied : CollectionApplication → ℕ
applied a = a.amount

unfoldable pub invoice_collected : ℕ → Books → ℕ
invoice_collected invoice s = sum_where (pays invoice s.documents) applied s.applications

unfoldable pub invoice_remaining : InvoiceDraft → Books → ℤ
invoice_remaining draft s = pos draft.total -ℤ pos (invoice_collected draft.id s)

abbrev pub is_payable : InvoiceStatus → Bool
is_payable InvoiceStatus.issued = true
is_payable InvoiceStatus.paid = true
is_payable _ = false

abbrev pub is_draft_id : ℕ → InvoiceDraft → Bool
is_draft_id k d = d.id == k

unfoldable pub get_draft : ℕ → Action Books InvoiceDraft
get_draft k = do
  found ← gets (λ s. find (is_draft_id k) s.drafts)
  or_raise found (does_not_exist "invoice")

abbrev is_invoice : MovementSource → Bool
is_invoice MovementSource.invoice = true
is_invoice _ = false

-- `_invoice_movement`: the debit that the invoice has posted.
unfoldable pub is_invoice_movement : ℕ → Movement → Bool
is_invoice_movement invoice m = is_invoice m.source && is_of DocumentType.invoice_draft invoice m

unfoldable pub invoice_description : InvoiceDraft → Text
invoice_description d = truncate 500 (
    text "Fatura "
    ++ (d.invoice_number
        ++ (text " — " ++ (day_text d.period_start ++ (text "-" ++ day_text d.period_end)))))

unfoldable pub get_customer : ℕ → Action Books Customer
get_customer k = do
  found ← gets (λ s. find (λ (c : Customer). c.id == k) s.customers)
  or_raise found (does_not_exist "customer")

abbrev pub or_else : Option ℕ → ℕ → ℕ
or_else none d = d
or_else (some a) _ = a

-- `return None` when there is nothing to do
abbrev pub unless : {A : Type 0} → Bool → Action Books A → Action Books (Option A)
unless true m = pure none
unless false m = m >>= λ a. pure (some a)

-- The debit of `post_invoice`.
unfoldable pub post_debit : InvoiceDraft → ℕ → Action Books Movement
post_debit locked date = do
  customer ← get_customer locked.customer
  account ← account_for_customer customer locked.currency
  post (record {
    account = some account;
    cash_account = none;
    direction = chosen debit;
    cash_direction = blank;
    amount = finite false locked.total 2;
    currency = locked.currency;
    date = date;
    source = chosen MovementSource.invoice;
    document = some (DocumentType.invoice_draft, locked.id);
    description = invoice_description locked;
  })

unfoldable pub post_invoice : ℕ → Option ℕ → Action Books (Option Movement)
post_invoice draft date = atomic (do
  locked ← get_draft draft
  raise_if (not (is_payable locked.status) || is_some locked.cancelled_at) (invalid "invoice")
  invoice_date ← or_raise locked.invoice_date (required "invoice_date")
  posted ← gets (λ s. any (is_invoice_movement draft) s.movements)
  unless (posted || locked.total == 0) (post_debit locked (or_else date invoice_date)))

unfoldable pub reverse_invoice : ℕ → Action Books (Option (List Movement))
reverse_invoice draft = atomic (do
  locked ← get_draft draft
  collected ← gets (invoice_collected draft)
  raise_if (ltb 0 collected) (conflict invoice_has_collections)
  posted ← gets (λ s. any (is_invoice_movement draft) s.movements)
  today ← gets (λ s. s.today)
  unless (not posted)
      (reverse_document DocumentType.invoice_draft draft today MovementSource.invoice_cancel))

-- `Max("collection__date")` over the applications that pay the invoice.
abbrev later_of : Option ℕ → Option ℕ → Option ℕ
later_of none b = b
later_of (some a) none = some a
later_of (some a) (some b) = some (max a b)

abbrev collection_date : ℕ → List Document → Option ℕ
collection_date k ds = elim (find (has_id k) ds) [ none ↦ none | some d ↦ some d.date ]

unfoldable pub latest_paid : ℕ → List Document → List CollectionApplication → Option ℕ
latest_paid invoice ds [] = none
latest_paid invoice ds (a ∷ rest) =
    later_of (if pays invoice ds a then collection_date a.collection ds else none)
      (latest_paid invoice ds rest)

abbrev or_first : Option ℕ → Option ℕ → Option ℕ
or_first (some a) _ = some a
or_first none b = b

-- The status and `paid_on` that standing collections give an issued invoice.
unfoldable pub settled : InvoiceDraft → Books → InvoiceStatus × Option ℕ
settled d s =
    if d.total == 0
    then (InvoiceStatus.paid, d.invoice_date)
    else if leb_ℤ (invoice_remaining d s) (pos 0)
    then (InvoiceStatus.paid, or_first (latest_paid d.id s.documents s.applications) d.invoice_date)
    else (InvoiceStatus.issued, none)

abbrev pub with_settled : InvoiceStatus × Option ℕ → InvoiceDraft → InvoiceDraft
with_settled (status, paid_on) d = record d { status = status; paid_on = paid_on }

unfoldable pub sync_invoice_status : ℕ → Action Books InvoiceDraft
sync_invoice_status draft = do
  locked ← get_draft draft
  if not (is_payable locked.status) || is_some locked.cancelled_at then pure locked else do
    result ← gets (settled locked)
    modify (λ s. record s { drafts = update (is_draft_id draft) (with_settled result) s.drafts })
    pure (with_settled result locked)
