-- ===== src/Billing/Lines.antt =====
-- apps/billing/services.py: a draft's totals and its lines.
use shiftlush_api.Prelude.{
  ℕ, ◌+◌, Bool, true, false, not, ◌&&◌, Option, none, some, List, [], ◌∷◌, ◌++◌, Text, update,
  sum_where, is_some, is_none, max, ◌==◌, if◌then◌else◌,
}
use shiftlush_api.Errors.{conflict, invoice_transition_not_allowed}
use shiftlush_api.Action.{Action, ⊤, pure, gets, raise_if, atomic, modify, ◌>>=◌, ◌>>◌}
use shiftlush_api.Ledger.Models.{InvoiceStatus, InvoiceLineKind, InvoiceDraft, InvoiceLine, Books}
use shiftlush_api.Ledger.Invoices.{get_draft, is_draft_id}
use shiftlush_api.Billing.Money

abbrev pub is_draft_status : InvoiceStatus → Bool
is_draft_status InvoiceStatus.draft = true
is_draft_status _ = false

-- The lines of a draft, those deleted left out as the model's manager does.
abbrev pub is_billed_on : ℕ → InvoiceLine → Bool
is_billed_on draft l = l.draft == draft && not l.is_deleted

abbrev pub amount_of : InvoiceLine → ℕ
amount_of l = l.amount

abbrev pub with_totals : ℕ × ℕ × ℕ → InvoiceDraft → InvoiceDraft
with_totals (subtotal, vat_amount, total) d = record d {
  subtotal = subtotal;
  vat_amount = vat_amount;
  total = total;
}

abbrev pub totals_of : InvoiceDraft → List InvoiceLine → ℕ × ℕ × ℕ
totals_of d ls = Money.totals (sum_where (is_billed_on d.id) amount_of ls) d.vat_rate

unfoldable pub recompute : InvoiceDraft → Action Books InvoiceDraft
recompute d = if not (is_draft_status d.status) then pure d else do
  result ← gets (λ s. totals_of d s.lines)
  modify (λ s. record s { drafts = update (is_draft_id d.id) (with_totals result) s.drafts })
  pure (with_totals result d)

-- `_editable`
unfoldable pub editable : ℕ → Action Books InvoiceDraft
editable k = do
  draft ← get_draft k
  raise_if (not (is_draft_status draft.status)) (conflict invoice_transition_not_allowed)
  pure draft

abbrev or_kept : {A : Type 0} → Option A → A → A
or_kept none kept = kept
or_kept (some new) _ = new

-- The API lets the notes of a draft change.
abbrev pub with_notes : Option Text → InvoiceDraft → InvoiceDraft
with_notes notes d = record d { notes = or_kept notes d.notes }

unfoldable pub edit_draft : ℕ → Option Text → Action Books InvoiceDraft
edit_draft k notes = atomic (do
  draft ← editable k
  modify (λ s. record s { drafts = update (is_draft_id k) (with_notes notes) s.drafts })
  pure (with_notes notes draft))

-- The highest position of a draft's lines, 0 for none.
unfoldable pub last_position : ℕ → List InvoiceLine → ℕ
last_position draft [] = 0
last_position draft (l ∷ ls) =
    let rest = last_position draft ls in if is_billed_on draft l then max l.position rest else rest

abbrev pub manual_line : InvoiceDraft → Text → ℕ → ℕ → ℕ → ℕ → InvoiceLine
manual_line d description quantity unit_price position id = record {
  id = id;
  company = d.company;
  draft = d.id;
  kind = InvoiceLineKind.manual;
  description = description;
  elevator = none;
  fault = none;
  fault_released = false;
  quantity = quantity;
  months = none;
  covered_days = none;
  period_days = none;
  unit_price = some unit_price;
  amount = Money.line_amount quantity (some unit_price);
  needs_price = false;
  position = position;
  is_deleted = false;
}

unfoldable pub append_line : (ℕ → InvoiceLine) → Action Books InvoiceLine
append_line row = do
  id ← gets (λ s. s.next_id)
  modify (λ s. record s { lines = s.lines ++ (row id ∷ []); next_id = id + 1 })
  pure (row id)

unfoldable pub add_line : ℕ → Text → ℕ → ℕ → Action Books InvoiceLine
unfolding last_position
add_line k description quantity unit_price = atomic (do
  draft ← editable k
  position ← gets (λ s. last_position k s.lines)
  line ← append_line (manual_line draft description quantity unit_price (position + 1))
  recompute draft >> pure line)

-- What the API lets change of a line.
pub record LineChanges : Type 0 where
  pub description : Option Text
  pub quantity : Option ℕ
  pub unit_price : Option ℕ

abbrev or_known : Option ℕ → Option ℕ → Option ℕ
or_known none known = known
or_known (some new) _ = some new

-- `line_amount`: the fraction, if the line has one.
unfoldable pub exact_amount : InvoiceLine → ℕ
unfolding Money.prorated_amount Money.line_amount
exact_amount l = elim l.months [
  | none ↦ Money.line_amount l.quantity l.unit_price
  | some months ↦ elim l.covered_days [
    | none ↦ Money.line_amount l.quantity l.unit_price
    | some covered ↦ elim l.period_days [
      | none ↦ Money.line_amount l.quantity l.unit_price
      | some days ↦
          if days == 0
          then Money.line_amount l.quantity l.unit_price
          else Money.prorated_amount l.unit_price months covered days
    ]
  ]
]

abbrev kept_unless : Bool → Option ℕ → Option ℕ
kept_unless true part = none
kept_unless false part = part

-- A quantity typed replaces the fraction.
abbrev pub corrected : LineChanges → InvoiceLine → InvoiceLine
corrected c l = record l {
  description = or_kept c.description l.description;
  quantity = or_kept c.quantity l.quantity;
  unit_price = or_known c.unit_price l.unit_price;
  months = kept_unless (is_some c.quantity) l.months;
  covered_days = kept_unless (is_some c.quantity) l.covered_days;
  period_days = kept_unless (is_some c.quantity) l.period_days;
}

abbrev pub priced : InvoiceLine → InvoiceLine
priced l = record l { needs_price = is_none l.unit_price; amount = exact_amount l }

abbrev pub has_line_id : ℕ → InvoiceLine → Bool
has_line_id k l = l.id == k

unfoldable pub save_line : InvoiceLine → Action Books ⊤
save_line l = modify λ s. record s { lines = update (has_line_id l.id) (λ _. l) s.lines }

unfoldable pub edit_line : InvoiceLine → LineChanges → Action Books InvoiceLine
unfolding exact_amount
edit_line l changes = atomic (do
  draft ← editable l.draft
  let line = priced (corrected changes l)
  save_line line
  recompute draft >> pure line)

abbrev pub deleted : InvoiceLine → InvoiceLine
deleted l = record l { is_deleted = true }

unfoldable pub remove_line : InvoiceLine → Action Books ⊤
remove_line l = atomic (do
  draft ← editable l.draft
  modify (λ s. record s { lines = update (has_line_id l.id) deleted s.lines })
  recompute draft >> pure tt)
