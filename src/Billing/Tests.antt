-- ===== src/Billing/Tests.antt =====
-- A concrete draft with its lines, runs on it, and an example of each theorem on billing.
use shiftlush_api.Prelude.{
  ℕ, ◌≡◌, refl, false, Option, none, some, List, [], ◌∷◌, Text, text, map, find, any, update,
  select, sum_where, arith, ◌*◌,
}
use shiftlush_api.Action.{◌>>=◌}
use shiftlush_api.Action.Outcome.{Ends}
use shiftlush_api.Ledger.Models.{InvoiceStatus, InvoiceLineKind, InvoiceDraft, InvoiceLine, Books}
use shiftlush_api.Ledger.Invoices.{get_draft}
use shiftlush_api.Ledger.Sample.{bill, opened}
use shiftlush_api.Billing.Money
use shiftlush_api.Billing.Money.Exact.{prorated_amount-half_up}
use shiftlush_api.Billing.Lines.{
  editable, recompute, last_position, append_line, add_line, LineChanges, exact_amount, save_line,
  edit_line, remove_line, edit_draft,
}
use shiftlush_api.Billing.Drafts.{issue, is_unpriced, takes_number}
use shiftlush_api.Billing.Calls.{get_line, DraftCall, run, run_all}
use shiftlush_api.Billing.Papers.{IsPapered}
use shiftlush_api.Billing.Totals.Lines.{IsEditable}
use shiftlush_api.Billing.Totals.{run_all-IsPapered}
use shiftlush_api.Billing.Refusals.{IsFrozen, IsRefused, frozen-IsRefused, issue-IsAllowed}

abbrev in_draft : InvoiceDraft
in_draft = record bill {
  id = 6;
  status = InvoiceStatus.draft;
  subtotal = 40000;
  vat_amount = 8000;
  total = 48000;
  invoice_number = [];
  invoice_date = none;
}

-- 20 of 30 days of 600.00
abbrev fee : InvoiceLine
fee = record {
  id = 7;
  company = 1;
  draft = 6;
  kind = InvoiceLineKind.elevator_fee;
  description = [];
  elevator = some 3;
  fault = none;
  fault_released = false;
  quantity = 6667;
  months = some 1;
  covered_days = some 20;
  period_days = some 30;
  unit_price = some 60000;
  amount = 40000;
  needs_price = false;
  position = 0;
  is_deleted = false;
}

abbrev papers : Books
papers = record opened { drafts = in_draft ∷ []; lines = fee ∷ [] }

abbrev retyped : LineChanges
retyped = record { description = none; quantity = some 6667; unit_price = none }

unfoldable totals_shown : List DraftCall → List (ℕ × ℕ × ℕ)
unfolding ◌>>=◌ run run_all get_line editable recompute last_position append_line add_line
    exact_amount save_line edit_line remove_line edit_draft get_draft find any update select
    sum_where Money.prorated_amount Money.line_amount Money.divide Money.places_of Money.places_from
totals_shown cs = map (λ d. (d.subtotal, d.vat_amount, d.total)) (run_all cs papers).drafts

-- The fraction charges 400.00, and the quantity typed instead 400.02.
typed_quantity : totals_shown (DraftCall.line_edited 7 retyped ∷ []) ≡ (40002, 8000, 48002) ∷ []
unfolding totals_shown
typed_quantity = refl

line_taken_off :
    totals_shown (DraftCall.line_added 6 (text "Part") 20000 1550 ∷ DraftCall.line_removed 7 ∷ [])
    ≡ (3100, 620, 3720) ∷ []
unfolding totals_shown
line_taken_off = refl

prorated_shown : Money.prorated_amount (some 60000) 1 20 30 ≡ 40000
unfolding Money.prorated_amount Money.divide Money.places_of Money.places_from
prorated_shown = refl

prorated_amount-half_up_example :
    Money.prorated_amount (some 60000) 1 20 30 ≡ Money.half_up (60000 * 1 * 20) 30
prorated_amount-half_up_example =
    prorated_amount-half_up 60000 1 20 30 (omega arith) (omega arith) (omega arith)

papers-IsPapered : IsPapered papers
unfolding sum_where
papers-IsPapered = record {
  lines_distinct = (tt, tt);
  lines_known = (omega arith, tt);
  drafts_distinct = (tt, tt);
  totalled = (refl, tt);
}

run_all-IsPapered_example :
    IsPapered (run_all (DraftCall.line_edited 7 retyped ∷ DraftCall.line_removed 7 ∷ []) papers)
run_all-IsPapered_example =
    run_all-IsPapered (DraftCall.line_edited 7 retyped ∷ DraftCall.line_removed 7 ∷ []) papers
      papers-IsPapered

bill-IsFrozen : IsFrozen 5 opened
unfolding find
bill-IsFrozen = record { row = bill; found = refl; no_draft = refl }

frozen-IsRefused_example :
    ((notes : Option Text) → IsRefused opened (edit_draft 5 notes))
    × ((description : Text) (quantity price : ℕ)
        → IsRefused opened (add_line 5 description quantity price))
    × ((l : InvoiceLine) (changes : LineChanges)
        → l.draft ≡ 5
        → IsRefused opened (edit_line l changes))
    × ((l : InvoiceLine) → l.draft ≡ 5 → IsRefused opened (remove_line l))
    × ((number : Text) (date : ℕ) → IsRefused opened (issue 5 number date))
frozen-IsRefused_example = frozen-IsRefused 5 opened bill-IsFrozen

issue-IsAllowed_example :
    Ends
      (λ t. t ≡ papers)
      (λ _ _.
        (any (is_unpriced 6) papers.lines ≡ false)
        × ((d : InvoiceDraft) × IsEditable 6 papers d
            × (any (takes_number d (text "A-2")) papers.drafts ≡ false)))
      (issue 6 (text "A-2") 739650)
      papers
issue-IsAllowed_example = issue-IsAllowed 6 (text "A-2") 739650 papers
