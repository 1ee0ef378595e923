-- ===== src/Billing/Generation/Tests.antt =====
-- apps/billing/services.py on a contract with a flat fee and a fault that was repaired for money.
use shiftlush_api.Prelude.{
  ℕ, ◌+◌, ◌*◌, ◌/◌, ◌<◌, ◌≤◌, ◌≡◌, refl, true, false, none, some, List, [], ◌∷◌, map, any, select,
  update, sum_where, insert_by, order_by, is_some, In,
}
use shiftlush_api.Action.{ok, ◌>>=◌}
use shiftlush_api.Fleet.{
  Scope, PricingType, BillingPeriod, ContractStatus, Contract, ContractElevator, FaultChannel,
  FaultPriority, FaultStatus, Fault,
}
use shiftlush_api.Ledger.Models.{InvoiceDraft, Books}
use shiftlush_api.Ledger.Sample.{opened}
use shiftlush_api.Calendar.{from_ordinal, to_ordinal, days_in_month, days_before_month, is_leap}
use shiftlush_api.Calendar.Months.{add_months}
use shiftlush_api.Periods.{Period, periods, periods_from, period_at, period_start_of, overlap_days}
use shiftlush_api.Billing.Money
use shiftlush_api.Billing.Lines.{append_line, recompute}
use shiftlush_api.Billing.Fees.{
  Sources, last_billed_day, prorated, elevator_fees, fee_lines, billable_faults, draft_lines,
}
use shiftlush_api.Billing.Generation.{
  DraftRun, create_draft, save_new_line, save_lines, write_draft, draft_for, draft_or_tell, visit,
  draft_periods, periods_of, draft_contract, draft_contracts, ready_notices, is_drafted, generate,
}
use shiftlush_api.Billing.Generation.Saved.{IsDrafted}
use shiftlush_api.Billing.Generation.Coverage.{generate-IsDrafted}
use shiftlush_api.Billing.Generation.Twice.{generate_twice}
use shiftlush_api.Billing.Generation.Totals.{IsBooked, generate-IsBooked}

-- From 24 April 2024, for 600.00 a month.
abbrev flat : Contract
flat = record {
  id = 31;
  company = 1;
  customer = 2;
  contract_number = [];
  status = ContractStatus.active;
  scope = Scope.maintenance_only;
  start_date = 739000;
  end_date = 739364;
  pricing_type = PricingType.flat;
  monthly_fee = some 60000;
  currency = 0;
  vat_rate = some 2000;
  billing_period = BillingPeriod.monthly;
  auto_renew = true;
  renewal_notice_days = 60;
  previous_contract = none;
  terminated_at = none;
  termination_reason = [];
  is_deleted = false;
}

abbrev on_it : ContractElevator
on_it = record {
  id = 32;
  company = 1;
  contract = 31;
  elevator = 33;
  unit_price = none;
  added_at = 739000;
  removed_at = none;
  is_deleted = false;
}

abbrev repaired : Fault
repaired = record {
  id = 34;
  company = 1;
  elevator = 33;
  reference = [];
  channel = FaultChannel.staff;
  reported_by = none;
  reported_by_portal_account = none;
  reporter_name = [];
  reporter_phone = [];
  description = [];
  additional_reports = [];
  priority = FaultPriority.normal;
  status = FaultStatus.closed;
  technician = none;
  reported_at = 739010 * 86400;
  assigned_at = none;
  on_site_at = none;
  resolved_at = none;
  closed_at = some (739011 * 86400);
  cancelled_at = none;
  cancel_reason = [];
  resolution_notes = [];
  parts_used = [];
  billable = some true;
  billable_overridden = false;
  stopped_elevator = false;
  is_deleted = false;
}

abbrev sources : Sources
sources = record {
  fleet = record {
    today = 739035;
    now = 0;
    next_id = 40;
    drawn = 0;
    elevators = [];
    contracts = flat ∷ [];
    lines = on_it ∷ [];
    users = [];
    faults = repaired ∷ [];
    notices = [];
  };
  midnight = λ day. day * 86400;
  local_day = λ at. at / 86400;
  describe_fee = λ kind p covered line. [];
  describe_fault = λ f. [];
}

abbrev unbilled_books : Books
unbilled_books = record opened { drafts = []; lines = [] }

drafts_after : ℕ → Books → List (ℕ × ℕ × ℕ)
unfolding generate draft_contracts draft_contract draft_periods visit draft_or_tell draft_for
    write_draft create_draft save_lines save_new_line append_line recompute draft_lines fee_lines
    prorated elevator_fees billable_faults last_billed_day ready_notices periods periods_from
    period_at period_start_of overlap_days add_months from_ordinal to_ordinal days_in_month
    days_before_month is_leap select any order_by insert_by update sum_where ◌>>=◌
    Money.prorated_amount Money.prorated_quantity Money.divide Money.places_of Money.places_from
drafts_after today s =
    map (λ (d : InvoiceDraft). (d.period_start, d.period_end, d.total))
      (generate sources today s).1.drafts

-- The first month has ended; on its draft are the fee and the fault, whose price is still missing.
one_month_drafted : drafts_after 739035 unbilled_books ≡ (739000, 739029, 72000) ∷ []
unfolding drafts_after
one_month_drafted = refl

none_on_its_last_day : drafts_after 739029 unbilled_books ≡ []
unfolding drafts_after
none_on_its_last_day = refl

generate-IsDrafted_example :
    (run : DraftRun) × (t : Books) × (generate sources 739035 unbilled_books ≡ (ok run, t))
    × ((c : Contract)
        → In c (flat ∷ [])
        → is_drafted 739035 c ≡ true
        → is_some c.vat_rate ≡ true
        → (p : Period) → In p (periods_of c)
        → p.end < 739035
        → 739035 ≤ p.end + 92
        → IsDrafted c.id p.start t)
generate-IsDrafted_example = generate-IsDrafted sources 739035 (tt, tt) unbilled_books

unbilled_books-IsBooked : IsBooked unbilled_books
unbilled_books-IsBooked = record {
  papered = record { lines_distinct = tt; lines_known = tt; drafts_distinct = tt; totalled = tt };
  drafts_known = tt;
}

generate-IsBooked_example : IsBooked (generate sources 739035 unbilled_books).1
generate-IsBooked_example = generate-IsBooked sources 739035 unbilled_books unbilled_books-IsBooked

abbrev first_run : DraftRun
first_run = (generate-IsDrafted sources 739035 (tt, tt) unbilled_books).0

abbrev books_after : Books
books_after = (generate-IsDrafted sources 739035 (tt, tt) unbilled_books).1

generate_twice_example :
    (again : DraftRun) × (generate sources 739035 books_after ≡ (ok again, books_after))
    × (again.created ≡ [])
generate_twice_example =
    generate_twice sources 739035 (tt, tt) unbilled_books books_after first_run
      (generate-IsDrafted sources 739035 (tt, tt) unbilled_books).2
