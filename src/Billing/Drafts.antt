-- ===== src/Billing/Drafts.antt =====
-- apps/billing/services.py: a draft is issued, paid or cancelled.
use shiftlush_api.Prelude.{
  ℕ, Bool, true, false, not, ◌&&◌, ◌||◌, Option, none, some, [], Text, text_eq, any, update,
  is_some, ◌==◌, if◌then◌else◌,
}
use shiftlush_api.Prelude.Int.{pos, leb_ℤ}
use shiftlush_api.Errors.{
  conflict, business_rule, duplicate_record, invoice_transition_not_allowed,
  invoice_lines_need_price, duplicate_invoice_number,
}
use shiftlush_api.Action.{Action, ⊤, pure, gets, raise_if, atomic, modify, ◌>>=◌, ◌>>◌}
use shiftlush_api.Ledger.Models.{
  InvoiceStatus, InvoiceDraft, InvoiceLine, CashAccount, PaymentMethod, Books,
}
use shiftlush_api.Ledger.Posting.{Choice}
use shiftlush_api.Ledger.Invoices.{
  get_draft, is_draft_id, is_payable, invoice_remaining, post_invoice, reverse_invoice,
  sync_invoice_status,
}
use shiftlush_api.Ledger.Collections.{collect_invoice}
use shiftlush_api.Billing.Lines.{is_draft_status, is_billed_on, recompute, editable}

abbrev pub is_unpriced : ℕ → InvoiceLine → Bool
is_unpriced draft l = is_billed_on draft l && l.needs_price

-- Another invoice of the firm that has the number.
abbrev pub takes_number : InvoiceDraft → Text → InvoiceDraft → Bool
takes_number d number other =
    other.company == d.company
    && text_eq other.invoice_number number
    && is_payable other.status
    && not (other.id == d.id)

abbrev pub issued_as : Text → ℕ → InvoiceDraft → InvoiceDraft
issued_as number date d = record d {
  status = InvoiceStatus.issued;
  invoice_number = number;
  invoice_date = some date;
}

unfoldable pub issue : ℕ → Text → ℕ → Action Books InvoiceDraft
issue k number date = atomic (do
  draft ← editable k
  unpriced ← gets (λ s. any (is_unpriced k) s.lines)
  raise_if unpriced (business_rule invoice_lines_need_price)
  taken ← gets (λ s. any (takes_number draft number) s.drafts)
  raise_if taken (duplicate_record duplicate_invoice_number)
  recompute draft
  modify (λ s. record s { drafts = update (is_draft_id k) (issued_as number date) s.drafts })
  post_invoice k none
  sync_invoice_status k)

abbrev pub is_issued : InvoiceStatus → Bool
is_issued InvoiceStatus.issued = true
is_issued _ = false

unfoldable pub mark_paid :
    ℕ → ℕ → Option CashAccount → Choice PaymentMethod → Action Books InvoiceDraft
mark_paid k paid_on cash_account method = atomic (do
  draft ← get_draft k
  remaining ← gets (invoice_remaining draft)
  raise_if (not (is_issued draft.status) || leb_ℤ remaining (pos 0))
      (conflict invoice_transition_not_allowed)
  collect_invoice draft paid_on cash_account method []
  get_draft k)

abbrev pub may_cancel : InvoiceStatus → Bool
may_cancel InvoiceStatus.cancelled = false
may_cancel _ = true

abbrev pub cancelled_draft : ℕ → Text → InvoiceDraft → InvoiceDraft
cancelled_draft now reason d = record d {
  status = InvoiceStatus.cancelled;
  cancelled_at = some now;
  cancel_reason = reason;
}

-- A line of the draft that holds its fault.
abbrev pub holds_fault : ℕ → InvoiceLine → Bool
holds_fault draft l = is_billed_on draft l && is_some l.fault && not l.fault_released

abbrev pub released_line : InvoiceLine → InvoiceLine
released_line l = record l { fault_released = true }

-- `if draft.status != InvoiceStatus.DRAFT: ledger.reverse_invoice(draft)`
unfoldable pub reverse_posted : InvoiceDraft → Action Books ⊤
reverse_posted d = if is_draft_status d.status then pure tt else (reverse_invoice d.id >> pure tt)

unfoldable pub cancel_draft : ℕ → Text → Action Books InvoiceDraft
cancel_draft k reason = atomic (do
  draft ← get_draft k
  raise_if (not (may_cancel draft.status)) (conflict invoice_transition_not_allowed)
  reverse_posted draft
  now ← gets (λ s. s.now)
  modify (λ s. record s { drafts = update (is_draft_id k) (cancelled_draft now reason) s.drafts })
  modify (λ s. record s { lines = update (holds_fault k) released_line s.lines })
  pure (cancelled_draft now reason draft))
