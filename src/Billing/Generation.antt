-- ===== src/Billing/Generation.antt =====
-- apps/billing/services.py: the drafts of the periods that have ended, one transaction for each and
-- one around the day's run.
pub mod Loops
pub mod Saved
pub mod Written
pub mod Coverage
pub mod Twice
pub mod Totals
pub mod Tests
use shiftlush_api.Prelude.{
  ℕ, zero, ◌+◌, Bool, true, false, not, ◌&&◌, ◌||◌, Option, none, some, List, [], ◌∷◌, ◌++◌, Text,
  map, any, select, length, is_none, holds, order_by, min, max, ltb, leb, ◌==◌, if◌then◌else◌,
}
use shiftlush_api.Errors.{integrity_error}
use shiftlush_api.Action.{
  Result, ok, err, Action, ⊤, pure, gets, raise_if, atomic, modify, none_if_refused, ◌>>=◌, ◌>>◌,
}
use shiftlush_api.Fleet.{ContractStatus, PricingType, Contract, ContractElevator, Fault, Fleet}
use shiftlush_api.Ledger.Models.{InvoiceStatus, InvoiceLineKind, InvoiceDraft, InvoiceLine, Books}
use shiftlush_api.Calendar.{from_ordinal}
use shiftlush_api.Periods.{Period, periods, nominal_days, overlap_days}
use shiftlush_api.Faults.Transitions.{is_closed}
use shiftlush_api.Billing.Lines.{recompute, append_line}
use shiftlush_api.Billing.Drafts.{may_cancel, is_unpriced}
use shiftlush_api.Billing.Fees.{Sources, last_billed_day, bills, draft_lines}

-- `RECENTLY_ENDED` and `LOOKBACK`
abbrev pub recently_ended : ℕ
recently_ended = 92

abbrev pub lookback : ℕ
lookback = 92

abbrev pub is_live_of : ℕ → InvoiceDraft → Bool
is_live_of contract d = d.contract == contract && may_cancel d.status

abbrev pub is_live_for : ℕ → ℕ → InvoiceDraft → Bool
is_live_for contract start d = is_live_of contract d && d.period_start == start

abbrev pub new_draft : Contract → ℕ → Period → ℕ → InvoiceDraft
new_draft c vat_rate p id = record {
  id = id;
  company = c.company;
  contract = c.id;
  customer = c.customer;
  period_start = p.start;
  period_end = p.end;
  status = InvoiceStatus.draft;
  currency = c.currency;
  vat_rate = vat_rate;
  subtotal = 0;
  vat_amount = 0;
  total = 0;
  invoice_number = [];
  invoice_date = none;
  paid_on = none;
  cancelled_at = none;
  cancel_reason = [];
  notes = [];
}

-- `InvoiceDraft.objects.create(...)`, with the constraints on the period.
unfoldable pub create_draft : Contract → ℕ → Period → Action Books InvoiceDraft
create_draft c vat_rate p = do
  taken ← gets (λ s. any (is_live_for c.id p.start) s.drafts)
  raise_if (taken || ltb p.end p.start) integrity_error
  id ← gets (λ s. s.next_id)
  modify (λ s. record s { drafts = s.drafts ++ (new_draft c vat_rate p id ∷ []); next_id = id + 1 })
  pure (new_draft c vat_rate p id)

abbrev pub is_billed : Option ℕ → List InvoiceLine → Bool
is_billed none ls = false
is_billed (some k) ls = any (bills k) ls

abbrev pub placed : ℕ → InvoiceDraft → ℕ → InvoiceLine → InvoiceLine
placed id d position l = record l {
  id = id;
  company = d.company;
  draft = d.id;
  position = position;
}

-- `line.save()`, with the constraint that a fault is billed once.
unfoldable pub save_new_line : InvoiceDraft → ℕ → InvoiceLine → Action Books InvoiceLine
save_new_line d position l = do
  billed ← gets (λ s. is_billed l.fault s.lines)
  raise_if billed integrity_error
  append_line (λ id. placed id d position l)

unfoldable pub save_lines : InvoiceDraft → ℕ → List InvoiceLine → Action Books ⊤
save_lines d position [] = pure tt
save_lines d position (l ∷ ls) = save_new_line d position l >> save_lines d (position + 1) ls

unfoldable pub write_draft : Sources → Contract → ℕ → Period → Action Books InvoiceDraft
write_draft w c vat_rate p = do
  draft ← create_draft c vat_rate p
  lines ← gets (λ s. draft_lines w c p s.lines)
  save_lines draft 0 lines
  recompute draft

unfoldable pub draft_for : Sources → Contract → ℕ → Period → Action Books (Option InvoiceDraft)
unfolding atomic
draft_for w c vat_rate p s = none_if_refused (atomic (write_draft w c vat_rate p) s)

-- What a firm is told: how many drafts, how many with a line to price, and the latest day billed.
pub record ReadyNotice : Type 0 where
  pub company : ℕ
  pub count : ℕ
  pub needs_price : ℕ
  pub latest : ℕ

-- `vat_missing` has the contract and the period's start of each call of `notify`; the source counts
-- the notices that those calls make.
pub record DraftRun : Type 0 where
  pub created : List InvoiceDraft
  pub vat_missing : List (ℕ × ℕ)
  pub ready : List ReadyNotice

abbrev pub empty_run : DraftRun
empty_run = record { created = []; vat_missing = []; ready = [] }

abbrev pub with_created : Option InvoiceDraft → DraftRun → DraftRun
with_created none run = run
with_created (some d) run = record run { created = run.created ++ (d ∷ []) }

unfoldable pub draft_or_tell :
    Option ℕ → Sources → Contract → Period → DraftRun → Action Books DraftRun
draft_or_tell none w c p run =
    pure (record run { vat_missing = run.vat_missing ++ ((c.id, p.start) ∷ []) })
draft_or_tell (some vat_rate) w c p run =
    draft_for w c vat_rate p >>= λ made. pure (with_created made run)

-- One turn of the loop over a contract's periods; `existing` are the starts of its live drafts.
unfoldable pub visit : Sources → ℕ → Contract → List ℕ → Period → DraftRun → Action Books DraftRun
visit w today c existing p run =
    if ltb (p.end + lookback) today || any (λ start. start == p.start) existing
    then pure run
    else draft_or_tell c.vat_rate w c p run

unfoldable pub draft_periods :
    Sources → ℕ → Contract → List ℕ → List Period → DraftRun → Action Books DraftRun
draft_periods w today c existing [] run = pure run
draft_periods w today c existing (p ∷ ps) run =
    if leb today p.end
    then pure run
    else (visit w today c existing p run >>= λ next. draft_periods w today c existing ps next)

abbrev pub start_of_draft : InvoiceDraft → ℕ
start_of_draft d = d.period_start

-- The periods of a contract up to its last billed day.
abbrev pub periods_of : Contract → List Period
periods_of c = periods (from_ordinal c.start_date) (last_billed_day c) c.billing_period

unfoldable pub draft_contract : Sources → ℕ → Contract → DraftRun → Action Books DraftRun
draft_contract w today c run = do
  existing ← gets (λ s. map start_of_draft (select (is_live_of c.id) s.drafts))
  draft_periods w today c existing (periods_of c) run

unfoldable pub draft_contracts : Sources → ℕ → List Contract → DraftRun → Action Books DraftRun
draft_contracts w today [] run = pure run
draft_contracts w today (c ∷ cs) run =
    draft_contract w today c run >>= λ next. draft_contracts w today cs next

abbrev pub ended_recently : ContractStatus → Contract → ℕ → Bool
ended_recently ContractStatus.draft c today = false
ended_recently ContractStatus.active c today = true
ended_recently ContractStatus.expired c today = leb today (c.end_date + recently_ended)
ended_recently ContractStatus.renewed c today = leb today (c.end_date + recently_ended)
ended_recently ContractStatus.terminated c today = elim c.terminated_at [
  | none ↦ false
  | some day ↦ leb today (day + recently_ended)
]

abbrev pub is_drafted : ℕ → Contract → Bool
is_drafted today c = ended_recently c.status c today && not c.is_deleted

abbrev pub contract_start : Contract → ℕ
contract_start c = c.start_date

-- The contracts of one run, in the order in which they are drafted.
abbrev pub contracts_of : Sources → ℕ → List Contract
contracts_of w today = order_by contract_start (select (is_drafted today) w.fleet.contracts)

unfoldable pub latest_end : List InvoiceDraft → ℕ
latest_end [] = 0
latest_end (d ∷ ds) = max d.period_end (latest_end ds)

abbrev of_company : ℕ → InvoiceDraft → Bool
of_company company d = d.company == company

unfoldable pub ready_notice : List InvoiceDraft → List InvoiceLine → ℕ → ReadyNotice
ready_notice ds ls company =
    let own = select (of_company company) ds in
    record {
      company = company;
      count = length own;
      needs_price = length (select (λ d. any (is_unpriced d.id) ls) own);
      latest = latest_end own;
    }

-- The companies, each once, in the order in which their first drafts were made.
unfoldable pub companies_of : List InvoiceDraft → List ℕ
companies_of [] = []
companies_of (d ∷ ds) = d.company ∷ select (λ k. not (k == d.company)) (companies_of ds)

unfoldable pub ready_notices : List InvoiceDraft → List InvoiceLine → List ReadyNotice
unfolding ready_notice companies_of latest_end
ready_notices ds ls = map (ready_notice ds ls) (companies_of ds)

unfoldable pub generate : Sources → ℕ → Action Books DraftRun
unfolding ready_notices
generate w today = atomic (do
  run ← draft_contracts w today (contracts_of w today) empty_run
  ready ← gets (λ s. ready_notices run.created s.lines)
  pure (record run { ready = ready }))
