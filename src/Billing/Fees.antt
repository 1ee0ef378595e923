-- ===== src/Billing/Fees.antt =====
-- apps/billing/services.py: the lines of the draft of a period, for the lifts under the contract and
-- the faults to bill. The fleet's rows are read only. The time zone and the words of a line
-- (`_describe`) are parameters.
use shiftlush_api.Prelude.{
  ℕ, ◌+◌, Bool, true, false, not, ◌&&◌, Option, none, some, List, [], ◌∷◌, ◌++◌, Text, map, any,
  select, is_none, holds, order_by, min, ltb, leb, ◌==◌, if◌then◌else◌,
}
use shiftlush_api.Fleet.{ContractStatus, PricingType, Contract, ContractElevator, Fault, Fleet}
use shiftlush_api.Ledger.Models.{InvoiceLineKind, InvoiceLine}
use shiftlush_api.Periods.{Period, nominal_days, overlap_days}
use shiftlush_api.Faults.Transitions.{is_closed}
use shiftlush_api.Billing.Money

-- What generation reads: the fleet, the time that a local day starts at, the local day of a time,
-- the words of a fee for so many days of a period, and those of a fault.
pub record Sources : Type 0 where
  pub fleet : Fleet
  pub midnight : ℕ → ℕ
  pub local_day : ℕ → ℕ
  pub describe_fee : InvoiceLineKind → Period → ℕ → Option ContractElevator → Text
  pub describe_fault : Fault → Text

-- `date.max`
abbrev pub far_future : ℕ
far_future = 3652059

abbrev pub or_far : Option ℕ → ℕ
or_far none = far_future
or_far (some day) = day

abbrev earlier_end : ContractStatus → Option ℕ → ℕ → ℕ
earlier_end ContractStatus.terminated (some terminated_at) end_date = min end_date terminated_at
earlier_end _ _ end_date = end_date

unfoldable pub last_billed_day : Contract → ℕ
last_billed_day c = earlier_end c.status c.terminated_at c.end_date

-- `_prorated`. A line that is not saved has no key, draft or position.
unfoldable pub prorated :
    Sources
    → InvoiceLineKind
    → Period
    → ℕ
    → Option ℕ
    → Option ContractElevator
    → Option ℕ
    → InvoiceLine
unfolding Money.prorated_quantity Money.prorated_amount
prorated w kind p covered unit_price line elevator = record {
  id = 0;
  company = 0;
  draft = 0;
  kind = kind;
  description = w.describe_fee kind p covered line;
  elevator = elevator;
  fault = none;
  fault_released = false;
  quantity = Money.prorated_quantity p.months covered (nominal_days p);
  months = some p.months;
  covered_days = some covered;
  period_days = some (nominal_days p);
  unit_price = unit_price;
  amount = Money.prorated_amount unit_price p.months covered (nominal_days p);
  needs_price = is_none unit_price;
  position = 0;
  is_deleted = false;
}

abbrev is_still_on : Option ℕ → ℕ → Bool
is_still_on none day = true
is_still_on (some removed_at) day = leb day removed_at

-- A line of the contract that was on it in the period.
abbrev pub is_in_period : Contract → Period → ContractElevator → Bool
is_in_period c p l =
    l.contract == c.id
    && leb l.added_at p.end
    && is_still_on l.removed_at p.start
    && not l.is_deleted

unfoldable pub elevator_fees : Sources → Period → List ContractElevator → List InvoiceLine
unfolding prorated overlap_days
elevator_fees w p [] = []
elevator_fees w p (l ∷ ls) =
    let covered = overlap_days p.start p.end l.added_at (or_far l.removed_at) in
    let rest = elevator_fees w p ls in
    if covered == 0
    then rest
    else prorated w InvoiceLineKind.elevator_fee p covered l.unit_price (some l) (some l.elevator)
      ∷ rest

abbrev pub added_on : ContractElevator → ℕ
added_on l = l.added_at

abbrev pub fee_lines_of : PricingType → Sources → Contract → Period → List InvoiceLine
fee_lines_of PricingType.flat w c p =
    let covered = overlap_days p.start p.end c.start_date (last_billed_day c) in
    prorated w InvoiceLineKind.contract_fee p covered c.monthly_fee none none ∷ []
fee_lines_of PricingType.per_elevator w c p =
    elevator_fees w p (order_by added_on (select (is_in_period c p) w.fleet.lines))

-- `_fee_lines`
unfoldable pub fee_lines : Sources → Contract → Period → List InvoiceLine
unfolding elevator_fees prorated last_billed_day overlap_days
fee_lines w c p = fee_lines_of c.pricing_type w c p

-- A live line that bills the fault.
abbrev pub bills : ℕ → InvoiceLine → Bool
bills k l = holds l.fault k && not l.fault_released && not l.is_deleted

abbrev pub is_within : Option ℕ → ℕ → ℕ → Bool
is_within none from until = false
is_within (some at) from until = leb from at && ltb at until

abbrev is_yes : Option Bool → Bool
is_yes none = false
is_yes (some b) = b

abbrev pub is_candidate : Sources → Contract → Period → List InvoiceLine → Fault → Bool
is_candidate w c p ls f =
    is_closed f.status
    && is_yes f.billable
    && is_within f.closed_at (w.midnight p.start) (w.midnight (p.end + 1))
    && any (λ l. l.elevator == f.elevator && l.contract == c.id) w.fleet.lines
    && not (any (bills f.id) ls)
    && not f.is_deleted

-- The lift of the fault was on the contract on the day.
abbrev pub covers_report : Contract → Fault → ℕ → ContractElevator → Bool
covers_report c f day l =
    l.contract == c.id
    && l.elevator == f.elevator
    && leb l.added_at day
    && leb day (or_far l.removed_at)
    && not l.is_deleted

abbrev pub is_covered_on_report : Sources → Contract → Fault → Bool
is_covered_on_report w c f = any (covers_report c f (w.local_day f.reported_at)) w.fleet.lines

abbrev pub closing_time : Fault → ℕ
closing_time f = elim f.closed_at [ none ↦ 0 | some at ↦ at ]

unfoldable pub billable_faults : Sources → Contract → Period → List InvoiceLine → List Fault
billable_faults w c p ls =
    select (is_covered_on_report w c)
      (order_by closing_time (select (is_candidate w c p ls) w.fleet.faults))

abbrev pub fault_line : Sources → Fault → InvoiceLine
fault_line w f = record {
  id = 0;
  company = 0;
  draft = 0;
  kind = InvoiceLineKind.fault;
  description = w.describe_fault f;
  elevator = some f.elevator;
  fault = some f.id;
  fault_released = false;
  quantity = 10000;
  months = none;
  covered_days = none;
  period_days = none;
  unit_price = none;
  amount = 0;
  needs_price = true;
  position = 0;
  is_deleted = false;
}

-- The lines of the draft of one period.
unfoldable pub draft_lines : Sources → Contract → Period → List InvoiceLine → List InvoiceLine
unfolding fee_lines billable_faults
draft_lines w c p ls = fee_lines w c p ++ map (fault_line w) (billable_faults w c p ls)
