-- ===== src/Billing/Generation/Saved.antt =====
-- apps/billing/services.py: the lines of a new draft as they are saved.
use shiftlush_api.Prelude.{
  any_appended, any_updated, any-append, ℕ, ◌+◌, ◌≡◌, refl, ◌∙◌, inl, inr, true, false, Bool-cases,
  ◌==◌, Option, none, some, List, [], ◌∷◌, ◌++◌, map, any, update, All, All-select, All-selected,
  All-order_by, All-append, All-map, IsDistinct, IsDistinct-select, IsDistinct-order_by, arith,
}
use shiftlush_api.Action.{atomic, modify}
use shiftlush_api.Action.Outcome.{
  Ends, Ends-pure, Ends-gets, Ends-passed, Ends-guard, Ends-modify, Ends-bind, Ends-weaken,
}
use shiftlush_api.Action.Never.{Never, none_if_refused-Keeps}
use shiftlush_api.Action.Keeps.{Keeps, Keeps-modify, Keeps-bind, Keeps-Ends, keeps_rules}
use shiftlush_api.Fleet.{PricingType, Contract, ContractElevator, Fault}
use shiftlush_api.Ledger.Models.{InvoiceDraft, InvoiceLine, Books}
use shiftlush_api.Ledger.Invoices.{is_draft_id}
use shiftlush_api.Periods.{Period, overlap_days}
use shiftlush_api.Billing.Lines.{recompute, append_line, with_totals}
use shiftlush_api.Billing.Fees.{
  Sources, or_far, bills, is_candidate, closing_time, billable_faults, fault_line, fee_lines,
  fee_lines_of, elevator_fees, prorated, draft_lines,
}
use shiftlush_api.Billing.Generation.{
  is_billed, is_live_for, create_draft, placed, save_new_line, save_lines, write_draft, draft_for,
}

-- The contract has a live draft of the period that starts on the day.
abbrev pub IsDrafted : ℕ → ℕ → Books → Type 0
IsDrafted contract start s = any (is_live_for contract start) s.drafts ≡ true

-- A draft that is there stays.
module _ (contract start : ℕ) where
  create_draft-Keeps :
      (c : Contract) (vat_rate : ℕ) (p : Period)
      → Keeps (IsDrafted contract start) (create_draft c vat_rate p)
  unfolding create_draft
  create_draft-Keeps c vat_rate p =
      Keeps-Ends {Q = λ _ _ t. IsDrafted contract start t} _
        (λ s x. Ends-gets _ _ _ (
          Ends-guard _ _ _ _ x
            λ _. Ends-gets _ _ _ (Ends-modify _ _ _ (Ends-pure _ _ (any_appended _ s.drafts _ x)))))
        λ s x _ t y. y

  save_new_line-Keeps :
      (d : InvoiceDraft) (position : ℕ) (l : InvoiceLine)
      → Keeps (IsDrafted contract start) (save_new_line d position l)
  unfolding save_new_line append_line
  save_new_line-Keeps d position l =
      Keeps-Ends {Q = λ _ _ t. IsDrafted contract start t} _
        (λ s x.
          Ends-gets _ _ _
            (Ends-guard _ _ _ _ x λ _. Ends-gets _ _ _ (Ends-modify _ _ _ (Ends-pure _ _ x))))
        λ s x _ t y. y

  save_lines-Keeps :
      (d : InvoiceDraft) (position : ℕ) (ls : List InvoiceLine)
      → Keeps (IsDrafted contract start) (save_lines d position ls)
  unfolding save_lines
  save_lines-Keeps d position [] = search keeps_rules
  save_lines-Keeps d position (l ∷ ls) =
      Keeps-bind _ _ (save_new_line-Keeps d position l) λ _. save_lines-Keeps d (position + 1) ls

  totals-Keeps :
      (k : ℕ) (result : ℕ × ℕ × ℕ)
      → Keeps
          (IsDrafted contract start)
          (modify (λ s. record s { drafts = update (is_draft_id k) (with_totals result) s.drafts }))
  totals-Keeps k (subtotal, vat, total) = Keeps-modify _ λ s. any_updated _ _ _ s.drafts λ d e. e

  recompute-Keeps : (d : InvoiceDraft) → Keeps (IsDrafted contract start) (recompute d)
  unfolding recompute
  recompute-Keeps d = search (keeps_rules, totals-Keeps) depth 9

  write_draft-Keeps :
      (w : Sources) (c : Contract) (vat_rate : ℕ) (p : Period)
      → Keeps (IsDrafted contract start) (write_draft w c vat_rate p)
  unfolding write_draft
  write_draft-Keeps w c vat_rate p =
      search (keeps_rules, create_draft-Keeps, save_lines-Keeps, recompute-Keeps) depth 9

  pub draft_for-Keeps :
      (w : Sources) (c : Contract) (vat_rate : ℕ) (p : Period)
      → Keeps (IsDrafted contract start) (draft_for w c vat_rate p)
  unfolding draft_for
  draft_for-Keeps w c vat_rate p = record {
    after = λ s h.
        let whole : Keeps (IsDrafted contract start) (atomic (write_draft w c vat_rate p)) =
          search (keeps_rules, write_draft-Keeps) in
        none_if_refused-Keeps (IsDrafted contract start) (atomic (write_draft w c vat_rate p) s)
          (whole.after s h);
  }

All-any : {A : Type 0} {P : A → Type 0} → ((x : A) → P x) → (xs : List A) → All P xs
All-any h [] = tt
All-any h (x ∷ xs) = (h x, All-any h xs)

-- The lines to save bill no fault that a line of the table bills, and no two of them the same.
abbrev pub IsFree : List InvoiceLine → List InvoiceLine → Type 0
IsFree table ls = All (λ l. is_billed l.fault table ≡ false) ls

abbrev pub IsApart : List InvoiceLine → Type 0
IsApart [] = Unit {0}
IsApart (l ∷ ls) = All (λ m. is_billed m.fault (l ∷ []) ≡ false) ls × IsApart ls

is_billed-append :
    (o : Option ℕ) (table : List InvoiceLine) (id position : ℕ) (d : InvoiceDraft) (l : InvoiceLine)
    → is_billed o table ≡ false
    → is_billed o (l ∷ []) ≡ false
    → is_billed o (table ++ (placed id d position l ∷ [])) ≡ false
unfolding any
is_billed-append none table id position d l h e = refl
is_billed-append (some k) table id position d l h e =
    any-append (bills k) table (placed id d position l) h (ground arith)

IsFree-append :
    (table : List InvoiceLine) (id position : ℕ) (d : InvoiceDraft) (l : InvoiceLine)
    (ls : List InvoiceLine)
    → IsFree table ls
    → All (λ m. is_billed m.fault (l ∷ []) ≡ false) ls
    → IsFree (table ++ (placed id d position l ∷ [])) ls
IsFree-append table id position d l [] h e = tt
IsFree-append table id position d l (m ∷ ms) (h, hs) (e, es) = (
  is_billed-append m.fault table id position d l h e,
  IsFree-append table id position d l ms hs es,
)

pub save_lines-Ends :
    (d : InvoiceDraft) (position : ℕ) (ls : List InvoiceLine) (s : Books)
    → IsFree s.lines ls
    → IsApart ls
    → Ends Never (λ _ t. t.drafts ≡ s.drafts) (save_lines d position ls) s
unfolding save_lines save_new_line append_line
save_lines-Ends d position [] s free apart = Ends-pure _ _ refl
save_lines-Ends d position (l ∷ ls) s (free, frees) (apart, aparts) =
    Ends-bind {Q = λ _ t. (t.drafts ≡ s.drafts) × IsFree t.lines ls} _ _ s
      (Ends-gets _ _ _ (
        Ends-passed _ _ _ _ free (
          Ends-gets _ _ _ (
            Ends-modify _ _ _ (
              Ends-pure _ _ (refl, IsFree-append s.lines s.next_id position d l ls frees apart))))))
      λ _ t x.
        Ends-weaken _ t (λ _ never. never) (λ _ u same. same ∙ x.0)
          (save_lines-Ends d (position + 1) ls t x.1 aparts)

-- The fees of a contract bill no fault.
abbrev BillsNone : InvoiceLine → Type 0
BillsNone l = l.fault ≡ none

elevator_fees-BillsNone :
    (w : Sources) (p : Period) (ls : List ContractElevator) → All BillsNone (elevator_fees w p ls)
unfolding elevator_fees prorated
elevator_fees-BillsNone w p [] = tt
elevator_fees-BillsNone w p (l ∷ ls) =
    elim (Bool-cases (overlap_days p.start p.end l.added_at (or_far l.removed_at) == 0)) [
      | inl e ↦ rw (e) (elevator_fees-BillsNone w p ls)
      | inr e ↦ rw (e) (refl, elevator_fees-BillsNone w p ls)
    ]

fee_lines_of-BillsNone :
    (pricing : PricingType) (w : Sources) (c : Contract) (p : Period)
    → All BillsNone (fee_lines_of pricing w c p)
unfolding prorated
fee_lines_of-BillsNone PricingType.flat w c p = (refl, tt)
fee_lines_of-BillsNone PricingType.per_elevator w c p = elevator_fees-BillsNone w p _

unbilled : (l : InvoiceLine) (o : Option ℕ) → BillsNone l → is_billed o (l ∷ []) ≡ false
unfolding any
unbilled l none h = refl
unbilled l (some k) h = rw (h) refl

IsApart-append : (xs ys : List InvoiceLine) → All BillsNone xs → IsApart ys → IsApart (xs ++ ys)
IsApart-append [] ys h apart = apart
IsApart-append (x ∷ xs) ys (h, hs) apart =
    (All-any (λ m. unbilled x m.fault h) (xs ++ ys), IsApart-append xs ys hs apart)

faults-IsFree :
    (w : Sources) (table : List InvoiceLine) (fs : List Fault)
    → All (λ f. any (bills f.id) table ≡ false) fs
    → IsFree table (map (fault_line w) fs)
faults-IsFree w table [] h = tt
faults-IsFree w table (f ∷ fs) (h, hs) = (h, faults-IsFree w table fs hs)

abbrev pub fault_id : Fault → ℕ
fault_id f = f.id

faults-others :
    (w : Sources) (f : Fault) (fs : List Fault)
    → All (λ g. (g.id == f.id) ≡ false) fs
    → All (λ m. is_billed m.fault (fault_line w f ∷ []) ≡ false) (map (fault_line w) fs)
unfolding any
faults-others w f [] h = tt
faults-others w f (g ∷ gs) (h, hs) = (ground arith, faults-others w f gs hs)

faults-IsApart :
    (w : Sources) (fs : List Fault) → IsDistinct fault_id fs → IsApart (map (fault_line w) fs)
faults-IsApart w [] d = tt
faults-IsApart w (f ∷ fs) (d, ds) = (faults-others w f fs d, faults-IsApart w fs ds)

candidate_unbilled :
    (w : Sources) (c : Contract) (p : Period) (table : List InvoiceLine) (f : Fault)
    → is_candidate w c p table f ≡ true
    → any (bills f.id) table ≡ false
candidate_unbilled w c p table f h = ground arith

module _ (w : Sources) (distinct : IsDistinct fault_id w.fleet.faults) (c : Contract) (p : Period)
    (table : List InvoiceLine) where
  billable_faults-unbilled : All (λ f. any (bills f.id) table ≡ false) (billable_faults w c p table)
  unfolding billable_faults
  billable_faults-unbilled = All-select _ _ _ (
      All-order_by closing_time _ _ (
        All-map _ (candidate_unbilled w c p table)
          (All-selected (is_candidate w c p table) w.fleet.faults)))

  billable_faults-IsDistinct : IsDistinct fault_id (billable_faults w c p table)
  unfolding billable_faults
  billable_faults-IsDistinct = IsDistinct-select fault_id _ _ (
      IsDistinct-order_by closing_time fault_id _
        (IsDistinct-select fault_id (is_candidate w c p table) w.fleet.faults distinct))

  fees-IsFree : (xs : List InvoiceLine) → All BillsNone xs → IsFree table xs
  fees-IsFree xs h = All-map xs (λ l none_of. rw (none_of) refl) h

  pub draft_lines-IsFree : IsFree table (draft_lines w c p table)
  unfolding draft_lines fee_lines
  draft_lines-IsFree =
      All-append _ (fee_lines_of c.pricing_type w c p) _
        (fees-IsFree _ (fee_lines_of-BillsNone c.pricing_type w c p))
        (faults-IsFree w table _ billable_faults-unbilled)

  pub draft_lines-IsApart : IsApart (draft_lines w c p table)
  unfolding draft_lines fee_lines
  draft_lines-IsApart =
      IsApart-append (fee_lines_of c.pricing_type w c p) _
        (fee_lines_of-BillsNone c.pricing_type w c p)
        (faults-IsApart w _ billable_faults-IsDistinct)
