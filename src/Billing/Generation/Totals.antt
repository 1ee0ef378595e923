-- ===== src/Billing/Generation/Totals.antt =====
-- apps/billing/services.py: the totals of the drafts that a run makes.
use shiftlush_api.Prelude.{
  ℕ, ◌+◌, ◌<◌, ◌≡◌, refl, inl, inr, true, List, [], ◌∷◌, ◌++◌, All, All-map, All-append, All-update,
  In, IsDistinct-append, arith,
}
use shiftlush_api.Action.{atomic}
use shiftlush_api.Action.Outcome.{
  Ends, Ends-pure, Ends-gets, Ends-guard, Ends-modify, Ends-bind, Ends-atomic,
}
use shiftlush_api.Action.Never.{none_if_refused-Keeps}
use shiftlush_api.Action.Keeps.{Keeps, Keeps-Ends}
use shiftlush_api.Fleet.{Contract}
use shiftlush_api.Ledger.Models.{InvoiceDraft, InvoiceLine, Books}
use shiftlush_api.Ledger.Invoices.{is_draft_id}
use shiftlush_api.Periods.{Period}
use shiftlush_api.Billing.Lines.{is_draft_status, with_totals, totals_of, recompute, append_line}
use shiftlush_api.Billing.Papers.{
  line_id, draft_id, IsPapered, IsPaperedBut, append_elsewhere, IsPapered-recompute,
}
use shiftlush_api.Billing.Generation.Loops.{generate-Keeps}
use shiftlush_api.Billing.Fees.{Sources, draft_lines}
use shiftlush_api.Billing.Generation.{
  new_draft, create_draft, placed, save_new_line, save_lines, write_draft, draft_for, generate,
}

-- The papers are in order, and no draft has a key that is still to come.
pub record IsBooked (s : Books) : Type 0 where
  pub papered : IsPapered s
  pub drafts_known : All (λ d. d.id < s.next_id) s.drafts

-- The same, but for the totals of a draft that is being written.
record IsBeingWritten (d : InvoiceDraft) (s : Books) : Type 0 where
  papered_but : IsPaperedBut d.id s
  drafts_known : All (λ x. x.id < s.next_id) s.drafts
  stored : In d s.drafts
  fresh : is_draft_status d.status ≡ true

In-last : {A : Type 0} (x : A) (xs : List A) → In x (xs ++ (x ∷ []))
In-last x [] = inl refl
In-last x (y ∷ ys) = inr (In-last x ys)

create_draft-Ends :
    (c : Contract) (vat_rate : ℕ) (p : Period) (s : Books)
    → IsBooked s
    → Ends (λ _. Unit {0}) IsBeingWritten (create_draft c vat_rate p) s
unfolding create_draft
create_draft-Ends c vat_rate p s h = Ends-gets _ _ _ (
    Ends-guard _ _ _ _ tt λ _. Ends-gets _ _ _ (
      Ends-modify _ _ _ (
        Ends-pure _ _ (record {
          papered_but = record {
            lines_distinct = h.papered.lines_distinct;
            lines_known = All-map s.lines (λ l known. omega arith) h.papered.lines_known;
            drafts_distinct =
                IsDistinct-append draft_id (new_draft c vat_rate p s.next_id) s.drafts
                  h.drafts_known h.papered.drafts_distinct;
            totalled_but =
                All-append _ s.drafts _ (All-map s.drafts (λ d t _. t) h.papered.totalled)
                  (λ other. ground arith, tt);
          };
          drafts_known =
              All-append _ s.drafts _ (All-map s.drafts (λ d known. omega arith) h.drafts_known)
                (omega arith, tt);
          stored = In-last _ s.drafts;
          fresh = refl;
        }))))

save_new_line-Ends :
    (d : InvoiceDraft) (position : ℕ) (l : InvoiceLine) (s : Books)
    → IsBeingWritten d s
    → Ends (λ _. Unit {0}) (λ _ t. IsBeingWritten d t) (save_new_line d position l) s
unfolding save_new_line append_line
save_new_line-Ends d position l s h =
    let but = h.papered_but in
    let elsewhere = append_elsewhere d.id (placed s.next_id d position l) s.lines refl in
    Ends-gets _ _ _ (
      Ends-guard _ _ _ _ tt λ _. Ends-gets _ _ _ (
        Ends-modify _ _ _ (
          Ends-pure _ _ (record {
            papered_but = record {
              lines_distinct =
                  IsDistinct-append line_id (placed s.next_id d position l) s.lines but.lines_known
                    but.lines_distinct;
              lines_known =
                  All-append _ s.lines _ (All-map s.lines (λ m known. omega arith) but.lines_known)
                    (omega arith, tt);
              drafts_distinct = but.drafts_distinct;
              totalled_but =
                  All-map s.drafts (λ x t apart. rw (elsewhere x.id apart) (t apart))
                    but.totalled_but;
            };
            drafts_known = All-map s.drafts (λ x known. omega arith) h.drafts_known;
            stored = h.stored;
            fresh = h.fresh;
          }))))

save_lines-Ends :
    (d : InvoiceDraft) (position : ℕ) (ls : List InvoiceLine) (s : Books)
    → IsBeingWritten d s
    → Ends (λ _. Unit {0}) (λ _ t. IsBeingWritten d t) (save_lines d position ls) s
unfolding save_lines
save_lines-Ends d position [] s h = Ends-pure _ _ h
save_lines-Ends d position (l ∷ ls) s h =
    Ends-bind _ _ s (save_new_line-Ends d position l s h)
      λ _ t x. save_lines-Ends d (position + 1) ls t x

recompute-Ends :
    (d : InvoiceDraft) (s : Books)
    → IsBeingWritten d s
    → Ends (λ _. Unit {0}) (λ _ t. IsBooked t) (recompute d) s
unfolding recompute
recompute-Ends d s h = rw (h.fresh) (
    Ends-gets _ _ _ (
      Ends-modify _ _ _ (
        Ends-pure _ _ (record {
          papered = IsPapered-recompute d s h.stored h.papered_but;
          drafts_known =
              All-update _ (is_draft_id d.id) (with_totals (totals_of d s.lines)) s.drafts
                (λ x known. known) h.drafts_known;
        }))))

module _ (w : Sources) (today : ℕ) where
  write_draft-Keeps :
      (c : Contract) (vat_rate : ℕ) (p : Period)
      → Keeps IsBooked (atomic (write_draft w c vat_rate p))
  unfolding write_draft
  write_draft-Keeps c vat_rate p =
      Keeps-Ends {Q = λ _ _ t. IsBooked t} _
        (λ s h. Ends-atomic {X = λ _. Unit {0}} _ s h (
          Ends-bind _ _ s (create_draft-Ends c vat_rate p s h) λ d t x. Ends-gets _ _ _ (
            Ends-bind _ _ t (save_lines-Ends d 0 (draft_lines w c p t.lines) t x)
              λ _ u y. recompute-Ends d u y)))
        λ s x _ t y. y

  draft_for-Keeps :
      (c : Contract) (vat_rate : ℕ) (p : Period) → Keeps IsBooked (draft_for w c vat_rate p)
  unfolding draft_for
  draft_for-Keeps c vat_rate p = record {
    after = λ s h.
        none_if_refused-Keeps IsBooked (atomic (write_draft w c vat_rate p) s)
          ((write_draft-Keeps c vat_rate p).after s h);
  }

  -- Where the rows are told apart by their keys, none of which is still to come, and the totals of
  -- every draft are those of its lines, they still are after a run: also of the drafts it made.
  pub generate-IsBooked : (s : Books) → IsBooked s → IsBooked (generate w today s).1
  generate-IsBooked s h = (generate-Keeps IsBooked w today draft_for-Keeps).after s h
