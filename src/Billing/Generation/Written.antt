-- ===== src/Billing/Generation/Written.antt =====
-- apps/billing/services.py: the draft of one period as it is written.
use shiftlush_api.Prelude.{
  ℕ, ◌≤◌, ◌≡◌, refl, sym, ap, inl, inr, true, false, ◌||◌, Bool-cases, ◌==◌, List, [], ◌∷◌, map,
  any, any_last, any_updated, select, IsDistinct, arith,
}
use mathlib.Core.Path.{subst}
use shiftlush_api.Action.{Action, raise, gets, raise_if, atomic, ◌>>=◌}
use shiftlush_api.Action.Outcome.{Ends, Ends-pure, Ends-gets, Ends-passed, Ends-modify, Ends-bind}
use shiftlush_api.Action.Never.{Never, none_if_refused-Leaves}
use shiftlush_api.Action.Keeps.{Ends-also, Keeps}
use shiftlush_api.Fleet.{Contract}
use shiftlush_api.Ledger.Models.{InvoiceDraft, Books}
use shiftlush_api.Periods.{Period}
use shiftlush_api.Billing.Lines.{recompute, is_draft_status}
use shiftlush_api.Billing.Fees.{Sources}
use shiftlush_api.Billing.Generation.{
  is_live_of, is_live_for, new_draft, create_draft, write_draft, draft_for, start_of_draft,
}
use shiftlush_api.Billing.Generation.Saved.{
  IsDrafted, fault_id, save_lines-Ends, draft_lines-IsFree, draft_lines-IsApart,
}

recompute-Ends :
    (contract start : ℕ) (d : InvoiceDraft) (s : Books)
    → IsDrafted contract start s
    → Ends Never (λ _ t. IsDrafted contract start t) (recompute d) s
unfolding recompute
recompute-Ends contract start d s h = elim (Bool-cases (is_draft_status d.status)) [
  | inl e ↦ rw (e) (
      Ends-gets _ _ _
        (Ends-modify _ _ _ (Ends-pure _ _ (any_updated _ _ _ s.drafts (λ x still. still) h))))
  | inr e ↦ rw (e) (Ends-pure _ _ h)
]

module _ (w : Sources) (distinct : IsDistinct fault_id w.fleet.faults) where
  write_draft-Ends :
      (c : Contract) (vat_rate : ℕ) (p : Period) (s : Books)
      → p.start ≤ p.end
      → any (is_live_for c.id p.start) s.drafts ≡ false
      → Ends Never (λ _ t. IsDrafted c.id p.start t) (write_draft w c vat_rate p) s
  unfolding write_draft create_draft
  write_draft-Ends c vat_rate p s order free =
      let new : is_live_for c.id p.start (new_draft c vat_rate p s.next_id) ≡ true = ground arith in
      Ends-bind {Q = λ _ t. IsDrafted c.id p.start t} _ _ s
        (Ends-gets _ _ _ (
          Ends-passed _ _ _ _ (rw (free) (ground arith))
            (Ends-gets _ _ _ (Ends-modify _ _ _ (Ends-pure _ _ (any_last _ s.drafts _ new))))))
        λ d t x. Ends-gets _ _ _ (
          Ends-bind _ _ t
            (save_lines-Ends d 0 _ t (draft_lines-IsFree w distinct c p t.lines)
              (draft_lines-IsApart w distinct c p t.lines))
            λ _ u same.
              recompute-Ends c.id p.start d u
                (subst (λ ds. any (is_live_for c.id p.start) ds ≡ true) (sym same) x))

  -- The period has its draft: the database refuses another.
  taken-Ends :
      (c : Contract) (vat_rate : ℕ) (p : Period) (s : Books)
      → IsDrafted c.id p.start s
      → Ends Never (λ _ t. IsDrafted c.id p.start t) (draft_for w c vat_rate p) s
  unfolding draft_for write_draft create_draft atomic gets raise_if raise ◌>>=◌
  taken-Ends c vat_rate p s e = record { outcome = rw (e) e }

  pub draft_for-Ends :
      (c : Contract) (vat_rate : ℕ) (p : Period) (s : Books)
      → p.start ≤ p.end
      → Ends Never (λ _ t. IsDrafted c.id p.start t) (draft_for w c vat_rate p) s
  unfolding draft_for
  draft_for-Ends c vat_rate p s order =
      elim (Bool-cases (any (is_live_for c.id p.start) s.drafts)) [
        | inl e ↦ taken-Ends c vat_rate p s e
        | inr e ↦ record {
          outcome =
              none_if_refused-Leaves (IsDrafted c.id p.start) s (write_draft w c vat_rate p s)
                (write_draft-Ends c vat_rate p s order e).outcome;
        }
      ]

-- What is drafted stays drafted.
abbrev Grows : Books → Books → Type 0
Grows s t = (contract start : ℕ) → IsDrafted contract start s → IsDrafted contract start t

abbrev KeepsDrafts : {A : Type 0} → Action Books A → Type 0
KeepsDrafts m = (contract start : ℕ) → Keeps (IsDrafted contract start) m

pub Ends-grown :
    {A : Type 0} {Q : A → Books → Type 0} (m : Action Books A) (s : Books)
    → KeepsDrafts m
    → Ends Never Q m s
    → Ends Never (λ a t. Q a t × Grows s t) m s
Ends-grown {Q = Q} m s k h =
    Ends-also Never (Grows s) Q m s
      (record { after = λ t g contract start x. (k contract start).after t (g contract start x) })
      (λ contract start x. x) h

-- The starts of a contract's live drafts, and those drafts.
pub existing-drafted :
    (contract start : ℕ) (ds : List InvoiceDraft)
    → any (λ known. known == start) (map start_of_draft (select (is_live_of contract) ds))
      ≡ any (is_live_for contract start) ds
unfolding any select
existing-drafted contract start [] = refl
existing-drafted contract start (d ∷ ds) = elim (Bool-cases (is_live_of contract d)) [
  | inl e ↦
      rw (e) (ap (λ rest. d.period_start == start || rest) (existing-drafted contract start ds))
  | inr e ↦ rw (e) (existing-drafted contract start ds)
]
