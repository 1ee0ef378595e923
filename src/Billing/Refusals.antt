-- ===== src/Billing/Refusals.antt =====
-- apps/billing/services.py: what may be edited and what may be issued.
use shiftlush_api.Prelude.{
  ℕ, ◌≡◌, refl, ap, ◌∙◌, sym, true, false, not, Option, some, Text, any, find, arith,
  true_and_false,
}
use mathlib.Core.Path.{subst}
use mathlib.Core.Option.{some-injective}
use shiftlush_api.Action.{Action, atomic, ◌>>=◌}
use shiftlush_api.Action.Outcome.{
  Ends, Ends-gets, Ends-guard, Ends-atomic, Ends-read, Ends-found, Ends-known, Reads, Reads-Ends,
}
use shiftlush_api.Ledger.Models.{InvoiceStatus, InvoiceDraft, InvoiceLine, Books}
use shiftlush_api.Ledger.Invoices.{get_draft, is_draft_id}
use shiftlush_api.Billing.Totals.Lines.{IsEditable, any-Keeps, any_get_draft-Keeps, editable-Reads}
use shiftlush_api.Billing.Lines.{
  is_draft_status, editable, edit_draft, add_line, LineChanges, edit_line, remove_line,
}
use shiftlush_api.Billing.Drafts.{issue, is_unpriced, takes_number}

-- The books have the draft under the key `k`, and it is a draft no longer.
pub record IsFrozen (k : ℕ) (s : Books) : Type 0 where
  pub row : InvoiceDraft
  pub found : find (is_draft_id k) s.drafts ≡ some row
  pub no_draft : is_draft_status row.status ≡ false

-- A call that raises, and changes nothing.
abbrev pub IsRefused : {A : Type 0} → Books → Action Books A → Type 0
IsRefused s m = Ends (λ t. t ≡ s) (λ _ _. ⊥) m s

row-Reads : (k : ℕ) (s : Books) (h : IsFrozen k s) → Reads (λ d. d ≡ h.row) (get_draft k) s
unfolding get_draft
row-Reads k s h =
    Reads-Ends _ s ((any_get_draft-Keeps (λ t. t ≡ s) k).after s refl)
      (Ends-gets _ _ _ (Ends-found _ _ _ tt λ d e. some-injective d h.row (sym e ∙ h.found)))

was_draft :
    (status : InvoiceStatus) → not (is_draft_status status) ≡ false → is_draft_status status ≡ true
was_draft status h = ground arith

editable-Reads_nothing : (k : ℕ) (s : Books) → IsFrozen k s → Reads (λ _. ⊥) (editable k) s
unfolding editable
editable-Reads_nothing k s h = Reads-Ends _ s ((any-Keeps (λ t. t ≡ s) k).after s refl) (
    Ends-read _ _ s (row-Reads k s h) tt λ d same. Ends-guard _ _ _ _ tt λ still.
      true_and_false
        (ap (λ (x : InvoiceDraft). is_draft_status x.status) (sym same) ∙ was_draft d.status still)
        h.no_draft)

editable_refuses :
    {A : Type 0} (k : ℕ) (s : Books) (f : InvoiceDraft → Action Books A)
    → IsFrozen k s
    → IsRefused s (atomic (editable k >>= f))
editable_refuses k s f h =
    Ends-atomic {X = λ _. Unit {0}} _ s refl
      (Ends-read _ _ s (editable-Reads_nothing k s h) tt λ d none_of_it. elim none_of_it [ ])

-- Once a draft is issued, paid or cancelled, it is not edited, no line is added to it, none of its
-- lines is edited or removed, and it is not issued again: each call raises and changes nothing.
pub frozen-IsRefused :
    (k : ℕ) (s : Books)
    → IsFrozen k s
    → ((notes : Option Text) → IsRefused s (edit_draft k notes))
      × ((description : Text) (quantity price : ℕ)
          → IsRefused s (add_line k description quantity price))
      × ((l : InvoiceLine) (changes : LineChanges)
          → l.draft ≡ k
          → IsRefused s (edit_line l changes))
      × ((l : InvoiceLine) → l.draft ≡ k → IsRefused s (remove_line l))
      × ((number : Text) (date : ℕ) → IsRefused s (issue k number date))
unfolding edit_draft add_line edit_line remove_line issue
frozen-IsRefused k s h = (
  (λ notes. editable_refuses k s _ h),
  (λ description quantity price. editable_refuses k s _ h),
  (λ l changes at. editable_refuses l.draft s _ (subst (λ n. IsFrozen n s) (sym at) h)),
  (λ l at. editable_refuses l.draft s _ (subst (λ n. IsFrozen n s) (sym at) h)),
  (λ number date. editable_refuses k s _ h),
)

-- Where `issue` returns, every line had its price, and no other invoice of the firm that is issued
-- or paid had the number. Where it raises, nothing has changed.
pub issue-IsAllowed :
    (k : ℕ) (number : Text) (date : ℕ) (s : Books)
    → Ends
        (λ t. t ≡ s)
        (λ _ _.
          (any (is_unpriced k) s.lines ≡ false)
          × ((d : InvoiceDraft) × IsEditable k s d
              × (any (takes_number d number) s.drafts ≡ false)))
        (issue k number date)
        s
unfolding issue
issue-IsAllowed k number date s = Ends-atomic {X = λ _. Unit {0}} _ s refl (
    Ends-read _ _ s (editable-Reads k s) tt λ d e. Ends-gets _ _ _ (
      Ends-guard _ _ _ _ tt λ priced.
        Ends-gets _ _ _ (Ends-guard _ _ _ _ tt λ free. Ends-known _ s (priced, (d, e, free)))))
