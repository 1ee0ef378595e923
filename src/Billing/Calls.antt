-- ===== src/Billing/Calls.antt =====
-- apps/billing/api/v1/views.py and apps/billing/services.py: the calls on drafts, in any sequence.
-- A view finds the row of a line first, and hands it to the service.
use shiftlush_api.Prelude.{ℕ, Bool, not, ◌&&◌, Option, List, [], ◌∷◌, Text, find, ◌==◌}
use shiftlush_api.Errors.{does_not_exist}
use shiftlush_api.Action.{Action, ⊤, pure, gets, or_raise, ◌>>=◌, ◌>>◌}
use shiftlush_api.Ledger.Models.{InvoiceLine, CashAccount, PaymentMethod, Books}
use shiftlush_api.Ledger.Posting.{Choice}
use shiftlush_api.Billing.Lines.{LineChanges, edit_draft, add_line, edit_line, remove_line}
use shiftlush_api.Billing.Drafts.{issue, mark_paid, cancel_draft}

abbrev pub is_line : ℕ → InvoiceLine → Bool
is_line k l = l.id == k && not l.is_deleted

-- `self.get_object()` of the lines' views
unfoldable pub get_line : ℕ → Action Books InvoiceLine
get_line k = do found ← gets (λ s. find (is_line k) s.lines); or_raise found (does_not_exist "line")

pub data DraftCall : Type 0 where
  noted : ℕ → Option Text → DraftCall
  line_added : ℕ → Text → ℕ → ℕ → DraftCall
  line_edited : ℕ → LineChanges → DraftCall
  line_removed : ℕ → DraftCall
  issued : ℕ → Text → ℕ → DraftCall
  paid : ℕ → ℕ → Option CashAccount → Choice PaymentMethod → DraftCall
  cancelled : ℕ → Text → DraftCall

unfoldable pub run : DraftCall → Action Books ⊤
unfolding get_line
run (noted k notes) = edit_draft k notes >> pure tt
run (line_added k description quantity unit_price) =
    add_line k description quantity unit_price >> pure tt
run (line_edited k changes) = (get_line k >>= λ l. edit_line l changes) >> pure tt
run (line_removed k) = get_line k >>= λ l. remove_line l
run (issued k number date) = issue k number date >> pure tt
run (paid k paid_on cash_account method) = mark_paid k paid_on cash_account method >> pure tt
run (cancelled k reason) = cancel_draft k reason >> pure tt

unfoldable pub run_all : List DraftCall → Books → Books
run_all [] s = s
run_all (c ∷ cs) s = run_all cs (run c s).1
