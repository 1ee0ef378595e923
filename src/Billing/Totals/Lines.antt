-- ===== src/Billing/Totals/Lines.antt =====
-- apps/billing/services.py: what is done to a draft's lines, and the draft's totals.
use shiftlush_api.Prelude.{
  ℕ, ◌≡◌, refl, sym, ap, true, Text, find-In, update, All, All-map, All-In, In, IsDistinct-same,
  ==_iff, arith,
}
use mathlib.Core.Path.{subst}
use shiftlush_api.Action.{pure, modify, ◌>>◌}
use shiftlush_api.Action.Outcome.{
  Ends, Reads, Reads-Ends, Ends-found, Ends-pure, Ends-gets, Ends-guard, Ends-modify, Ends-read,
  Ends-bind, Ends-atomic,
}
use shiftlush_api.Action.Keeps.{Keeps, keeps_rules}
use shiftlush_api.Ledger.Models.{InvoiceDraft, InvoiceLine, Books}
use shiftlush_api.Ledger.Invoices.{get_draft, is_draft_id}
use shiftlush_api.Billing.Lines.{
  is_draft_status, editable, recompute, append_line, add_line, LineChanges, corrected, priced,
  save_line, edit_line, has_line_id, deleted, remove_line,
}
use shiftlush_api.Billing.Calls.{is_line, get_line}
use shiftlush_api.Billing.Papers.{
  line_id, IsPapered, IsPaperedBut, IsPapered-append, IsPapered-update, IsPapered-recompute,
}

-- A draft that may be edited, found under the key `k`.
pub record IsEditable (k : ℕ) (s : Books) (d : InvoiceDraft) : Type 0 where
  pub stored : In d s.drafts
  pub key : d.id ≡ k
  pub open_still : is_draft_status d.status ≡ true

pub any-Keeps : (P : Books → Type 0) (k : ℕ) → Keeps P (editable k)
unfolding editable get_draft
any-Keeps P k = search keeps_rules depth 9

pub any_get_draft-Keeps : (P : Books → Type 0) (k : ℕ) → Keeps P (get_draft k)
unfolding get_draft
any_get_draft-Keeps P k = search keeps_rules

get_draft-Reads : (k : ℕ) (s : Books) → Reads (λ d. In d s.drafts × (d.id ≡ k)) (get_draft k) s
unfolding get_draft
get_draft-Reads k s = Reads-Ends _ s ((any_get_draft-Keeps (λ t. t ≡ s) k).after s refl) (
    Ends-gets _ _ _ (
      Ends-found _ _ _ tt λ d e.
        let stored = find-In (is_draft_id k) s.drafts d e in
        (stored.0, (==_iff d.id k).0 stored.1)))

pub editable-Reads : (k : ℕ) (s : Books) → Reads (IsEditable k s) (editable k) s
unfolding editable
editable-Reads k s = Reads-Ends _ s ((any-Keeps (λ t. t ≡ s) k).after s refl) (
    Ends-read _ _ s (get_draft-Reads k s) tt λ d stored. Ends-guard _ _ _ _ tt λ still.
      Ends-pure _ _ (record { stored = stored.0; key = stored.1; open_still = ground arith }))

get_line-Keeps : (P : Books → Type 0) (k : ℕ) → Keeps P (get_line k)
unfolding get_line
get_line-Keeps P k = search keeps_rules

pub get_line-Reads : (k : ℕ) (s : Books) → Reads (λ l. In l s.lines) (get_line k) s
unfolding get_line
get_line-Reads k s =
    Reads-Ends _ s ((get_line-Keeps (λ t. t ≡ s) k).after s refl)
      (Ends-gets _ _ _ (Ends-found _ _ _ tt λ l e. (find-In (is_line k) s.lines l e).0))

pub again :
    (d : InvoiceDraft) (t : Books)
    → is_draft_status d.status ≡ true
    → In d t.drafts
    → IsPaperedBut d.id t
    → Ends (λ _. Unit {0}) (λ _ u. IsPapered u) (recompute d) t
unfolding recompute
again d t still i h =
    rw (still) (Ends-gets _ _ _ (Ends-modify _ _ _ (Ends-pure _ _ (IsPapered-recompute d t i h))))

-- The totals of a draft, set again once its lines have changed.
recompute-IsPapered :
    (k : ℕ) (d : InvoiceDraft) (s t : Books)
    → IsEditable k s d
    → t.drafts ≡ s.drafts
    → IsPaperedBut k t
    → {A : Type 0} (a : A) → Ends (λ _. Unit {0}) (λ _ u. IsPapered u) (recompute d >> pure a) t
recompute-IsPapered k d s t e same h a =
    Ends-bind _ _ t
      (again d t e.open_still (subst (In d) (sym same) e.stored)
        (subst (λ n. IsPaperedBut n t) (sym e.key) h))
      λ _ u x. Ends-pure _ _ x

-- The rows under the key of a stored line are that line.
own_lines :
    (l : InvoiceLine) (s : Books)
    → IsPapered s
    → In l s.lines
    → All (λ r. has_line_id l.id r ≡ true → r.draft ≡ l.draft) s.lines
own_lines l s h i =
    All-map s.lines
      (λ r j e.
        ap (λ (x : InvoiceLine). x.draft)
          (IsDistinct-same line_id s.lines h.lines_distinct r l j i ((==_iff _ _).0 e)))
      (All-In s.lines)

-- A line changed in place, with its key and draft kept, and the totals set again.
line_changed :
    (l : InvoiceLine) (g : InvoiceLine → InvoiceLine) (d : InvoiceDraft) (s : Books)
    → IsPapered s
    → In l s.lines
    → IsEditable l.draft s d
    → ((r : InvoiceLine) → r.draft ≡ l.draft → (g r).draft ≡ l.draft)
    → ((r : InvoiceLine) → has_line_id l.id r ≡ true → (g r).id ≡ r.id)
    → {A : Type 0} (a : A)
    → Ends
        (λ _. Unit {0})
        (λ _ t. IsPapered t)
        (modify (λ s. record s { lines = update (has_line_id l.id) g s.lines })
          >> (recompute d >> pure a))
        s
line_changed l g d s h i e same key a = Ends-modify _ _ _ (
    recompute-IsPapered l.draft d s _ e refl
      (IsPapered-update l.draft (has_line_id l.id) g s (own_lines l s h i) same key h) a)

pub edit_line-IsPapered :
    (l : InvoiceLine) (c : LineChanges) (s : Books)
    → In l s.lines
    → IsPapered s
    → Ends IsPapered (λ _ t. IsPapered t) (edit_line l c) s
unfolding edit_line save_line
edit_line-IsPapered l c s i h = Ends-atomic {X = λ _. Unit {0}} _ s h (
    Ends-read _ _ s (editable-Reads l.draft s) tt λ d e.
      line_changed l (λ _. priced (corrected c l)) d s h i e (λ r at. refl)
        (λ r at. sym ((==_iff _ _).0 at)) _)

pub remove_line-IsPapered :
    (l : InvoiceLine) (s : Books)
    → In l s.lines
    → IsPapered s
    → Ends IsPapered (λ _ t. IsPapered t) (remove_line l) s
unfolding remove_line
remove_line-IsPapered l s i h = Ends-atomic {X = λ _. Unit {0}} _ s h (
    Ends-read _ _ s (editable-Reads l.draft s) tt
      λ d e. line_changed l deleted d s h i e (λ r at. at) (λ r at. refl) tt)

appended :
    (k : ℕ) (row : ℕ → InvoiceLine) (s : Books)
    → (row s.next_id).draft ≡ k
    → (row s.next_id).id ≡ s.next_id
    → IsPapered s
    → Ends (λ _. Unit {0}) (λ _ t. (t.drafts ≡ s.drafts) × IsPaperedBut k t) (append_line row) s
unfolding append_line
appended k row s at id h =
    Ends-gets _ _ _ (Ends-modify _ _ _ (Ends-pure _ _ (refl, IsPapered-append k row s at id h)))

pub add_line-IsPapered :
    (k : ℕ) (description : Text) (quantity price : ℕ) (s : Books)
    → IsPapered s
    → Ends IsPapered (λ _ t. IsPapered t) (add_line k description quantity price) s
unfolding add_line
add_line-IsPapered k description quantity price s h = Ends-atomic {X = λ _. Unit {0}} _ s h (
    Ends-read _ _ s (editable-Reads k s) tt λ d e. Ends-gets _ _ _ (
      Ends-bind _ _ s (appended k _ s e.key refl h)
        λ line t x. recompute-IsPapered k d s t e x.0 x.1 line))
