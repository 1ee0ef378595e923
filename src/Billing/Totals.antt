-- ===== src/Billing/Totals.antt =====
-- apps/billing/services.py: the totals of drafts under the calls on them.
pub mod Lines
use shiftlush_api.Prelude.{
  ℕ, ◌≡◌, refl, sym, ap, true, Option, none, List, [], ◌∷◌, Text, find-In, update, All, All-map,
  All-In, In, IsDistinct-same, ==_iff, arith,
}
use mathlib.Core.Path.{subst}
use shiftlush_api.Action.{Action, pure, modify, ◌>>=◌, ◌>>◌}
use shiftlush_api.Action.Outcome.{
  Ends, Reads, Reads-Ends, Ends-found, Ends-pure, Ends-gets, Ends-guard, Ends-modify, Ends-read,
  Ends-bind, Ends-atomic, Ends-weaken,
}
use shiftlush_api.Action.Keeps.{
  Keeps, Keeps-Ends, Keeps-modify, Keeps-pure, Keeps-bind, Ends-Keeps, keeps_rules,
}
use shiftlush_api.Ledger.Models.{InvoiceDraft, InvoiceLine, Books, CashAccount, PaymentMethod}
use shiftlush_api.Ledger.Posting.{Choice}
use shiftlush_api.Ledger.Invoices.{get_draft, is_draft_id, post_invoice, sync_invoice_status}
use shiftlush_api.Billing.Lines.{
  is_draft_status, editable, recompute, edit_draft, with_notes, append_line, add_line, LineChanges,
  corrected, priced, save_line, edit_line, has_line_id, deleted, remove_line,
}
use shiftlush_api.Billing.Drafts.{
  issued_as, issue, mark_paid, cancelled_draft, released_line, holds_fault, reverse_posted,
  cancel_draft,
}
use shiftlush_api.Billing.Calls.{is_line, get_line, DraftCall, run, run_all}
use shiftlush_api.Billing.Papers.{
  line_id, IsPapered, IsPaperedBut, IsPapered-append, IsPapered-update, IsPapered-recompute,
  IsPapered-drafts, IsPapered-lines,
}
use shiftlush_api.Billing.Elsewhere.Invoices.{
  post_invoice-Keeps, sync_invoice_status-Keeps, reverse_invoice-Keeps,
}
use shiftlush_api.Billing.Elsewhere.{collect_invoice-Keeps}
use shiftlush_api.Billing.Totals.Lines.{
  any-Keeps, any_get_draft-Keeps, editable-Reads, get_line-Reads, again, edit_line-IsPapered,
  remove_line-IsPapered, add_line-IsPapered,
}

noted-Keeps :
    (k : ℕ) (notes : Option Text)
    → Keeps IsPapered
        (modify (λ s. record s { drafts = update (is_draft_id k) (with_notes notes) s.drafts }))
noted-Keeps k notes = Keeps-modify _ λ s. IsPapered-drafts _ _ s (λ d. refl) (λ ls d t. t)

cancelled-Keeps :
    (k now : ℕ) (reason : Text)
    → Keeps IsPapered (
        modify
          (λ s. record s { drafts = update (is_draft_id k) (cancelled_draft now reason) s.drafts }))
cancelled-Keeps k now reason = Keeps-modify _ λ s. IsPapered-drafts _ _ s (λ d. refl) (λ ls d t. t)

released_line-Keeps :
    (k : ℕ)
    → Keeps IsPapered
        (modify (λ s. record s { lines = update (holds_fault k) released_line s.lines }))
released_line-Keeps k =
    Keeps-modify _ λ s. IsPapered-lines _ _ s (λ l. refl) (λ j l. refl) (λ l. refl)

edit_draft-Keeps : (k : ℕ) (notes : Option Text) → Keeps IsPapered (edit_draft k notes)
unfolding edit_draft
edit_draft-Keeps k notes = search (keeps_rules, any-Keeps, noted-Keeps) depth 9

-- The draft's own totals set again, where nothing has changed.
unchanged_but : (k : ℕ) (s : Books) → IsPapered s → IsPaperedBut k s
unchanged_but k s h = record {
  lines_distinct = h.lines_distinct;
  lines_known = h.lines_known;
  drafts_distinct = h.drafts_distinct;
  totalled_but = All-map s.drafts (λ d t _. t) h.totalled;
}

issued-Keeps :
    (k date : ℕ) (number : Text)
    → Keeps IsPapered (
        modify (λ s. record s { drafts = update (is_draft_id k) (issued_as number date) s.drafts }))
issued-Keeps k date number = Keeps-modify _ λ s. IsPapered-drafts _ _ s (λ d. refl) (λ ls d t. t)

-- The rest of `issue`, once the totals are set.
issue_rest-Keeps :
    (k date : ℕ) (number : Text)
    → Keeps IsPapered (
        modify (λ s. record s { drafts = update (is_draft_id k) (issued_as number date) s.drafts })
        >> (post_invoice k none >> sync_invoice_status k))
issue_rest-Keeps k date number =
    Keeps-bind _ _ (issued-Keeps k date number)
      λ _. Keeps-bind _ _ (post_invoice-Keeps k none) λ _. sync_invoice_status-Keeps k

issue-IsPapered :
    (k : ℕ) (number : Text) (date : ℕ) (s : Books)
    → IsPapered s
    → Ends IsPapered (λ _ t. IsPapered t) (issue k number date) s
unfolding issue
issue-IsPapered k number date s h = Ends-atomic {X = λ _. Unit {0}} _ s h (
    Ends-read _ _ s (editable-Reads k s) tt λ d e. Ends-gets _ _ _ (
      Ends-guard _ _ _ _ tt λ _. Ends-gets _ _ _ (
        Ends-guard _ _ _ _ tt λ _.
          Ends-bind _ _ s (again d s e.open_still e.stored (unchanged_but d.id s h)) λ _ t x.
            Ends-weaken _ t (λ _ _. tt) (λ _ _ y. y)
              (Ends-Keeps _ t (issue_rest-Keeps k date number) x))))

mark_paid-Keeps :
    (k paid_on : ℕ) (c : Option CashAccount) (m : Choice PaymentMethod)
    → Keeps IsPapered (mark_paid k paid_on c m)
unfolding mark_paid
mark_paid-Keeps k paid_on c m =
    search (keeps_rules, any_get_draft-Keeps, collect_invoice-Keeps) depth 12

cancel_draft-Keeps : (k : ℕ) (reason : Text) → Keeps IsPapered (cancel_draft k reason)
unfolding cancel_draft reverse_posted
cancel_draft-Keeps k reason =
    search
      (
        keeps_rules, any_get_draft-Keeps, reverse_invoice-Keeps, cancelled-Keeps,
        released_line-Keeps,
      )
      depth 16

returned-Keeps :
    {A : Type 0} (m : Action Books A)
    → ((s : Books) → IsPapered s → Ends IsPapered (λ _ t. IsPapered t) m s)
    → Keeps IsPapered m
returned-Keeps m h = Keeps-Ends {Q = λ _ _ t. IsPapered t} m h (λ s x _ t y. y)

-- A line found, and what is done with it.
line-Keeps :
    {A : Type 0} (k : ℕ) (f : InvoiceLine → Action Books A)
    → ((l : InvoiceLine) (s : Books)
        → In l s.lines
        → IsPapered s
        → Ends IsPapered (λ _ t. IsPapered t) (f l) s)
    → Keeps IsPapered (get_line k >>= f)
line-Keeps k f h = returned-Keeps _ λ s x. Ends-read _ _ s (get_line-Reads k s) x λ l i. h l s i x

run-Keeps : (c : DraftCall) → Keeps IsPapered (run c)
unfolding run
run-Keeps (DraftCall.noted k notes) = Keeps-bind _ _ (edit_draft-Keeps k notes) λ _. Keeps-pure tt
run-Keeps (DraftCall.line_added k description quantity price) =
    Keeps-bind _ _ (returned-Keeps _ (add_line-IsPapered k description quantity price))
      λ _. Keeps-pure tt
run-Keeps (DraftCall.line_edited k changes) =
    Keeps-bind _ _ (line-Keeps k _ λ l s i x. edit_line-IsPapered l changes s i x)
      λ _. Keeps-pure tt
run-Keeps (DraftCall.line_removed k) = line-Keeps k _ λ l s i x. remove_line-IsPapered l s i x
run-Keeps (DraftCall.issued k number date) =
    Keeps-bind _ _ (returned-Keeps _ (issue-IsPapered k number date)) λ _. Keeps-pure tt
run-Keeps (DraftCall.paid k paid_on c m) =
    Keeps-bind _ _ (mark_paid-Keeps k paid_on c m) λ _. Keeps-pure tt
run-Keeps (DraftCall.cancelled k reason) =
    Keeps-bind _ _ (cancel_draft-Keeps k reason) λ _. Keeps-pure tt

-- Where the rows are told apart by their keys and the totals of every draft are those of its
-- lines, they still are after any sequence of calls on drafts and lines, refused ones included:
-- also of a draft that is issued, paid or cancelled.
pub run_all-IsPapered : (cs : List DraftCall) (s : Books) → IsPapered s → IsPapered (run_all cs s)
unfolding run_all
run_all-IsPapered [] s h = h
run_all-IsPapered (c ∷ cs) s h = run_all-IsPapered cs _ ((run-Keeps c).after s h)
