-- ===== src/Contracts/Tests.antt =====
-- A concrete contract and its lifts, runs on them, and an example of each theorem on contracts.
use shiftlush_api.Prelude.{
  ℕ, ◌+◌, ◌-◌, ◌<◌, digits, zeros, zero_padded, read, text_eq, ◌≡◌, refl, true, false, none, some,
  List, [], ◌∷◌, text, any, select, find, update, sum_where, is_space, strip_left, strip, arith,
}
use shiftlush_api.Action.{for_each, ◌>>=◌}
use shiftlush_api.Action.Outcome.{Ends}
use shiftlush_api.Fleet.{
  ElevatorStatus, Elevator, ContractStatus, Scope, PricingType, BillingPeriod, Contract, Fleet,
}
use shiftlush_api.Contracts.{
  opens, is_open_in, save_status, create_line, add_elevator, add_elevators, end_line,
  remove_elevator, terminate, ended,
}
use shiftlush_api.Contracts.Calls.{LineCall, run, run_all}
use shiftlush_api.Calendar.{is_leap, days_in_month, days_before_month, from_ordinal, to_ordinal}
use shiftlush_api.Calendar.Months.{add_months}
use shiftlush_api.Contracts.Terms.{
  next_term, term_from, text_leb, highest_of, starts_with, before_dash, after_dash, all_digits,
  int_of, year_at, number_prefix, numbered, number_after,
}
use shiftlush_api.Contracts.Numbering.{number_after-numbered}
use shiftlush_api.Contracts.Following.{next_term-months, next_term-follows}
use shiftlush_api.Contracts.Renewal.{
  next_contract_number, create_contract, successor_of, hand_on, hand_over, save_contract_status,
  renew, expire, renew_at_end, start_successor, activate_successor,
}
use shiftlush_api.Contracts.Release.{superseded, renew-IsReleased, IsExpired, expire-IsExpired}
use shiftlush_api.Contracts.Lines.{terminate-IsReleased}

abbrev yearly : Contract
yearly = record {
  id = 1;
  company = 1;
  customer = 2;
  contract_number = text "2026-0001";
  status = ContractStatus.active;
  scope = Scope.full_coverage;
  start_date = 739000;
  end_date = 739364;
  pricing_type = PricingType.per_elevator;
  monthly_fee = none;
  currency = 0;
  vat_rate = some 2000;
  billing_period = BillingPeriod.monthly;
  auto_renew = true;
  renewal_notice_days = 60;
  previous_contract = none;
  terminated_at = none;
  termination_reason = [];
  is_deleted = false;
}

abbrev lift : ℕ → Elevator
lift k = record {
  id = k;
  company = 1;
  customer = 2;
  status = ElevatorStatus.uncontracted;
  is_deleted = false;
}

abbrev bare : Fleet
bare = record {
  today = 739100;
  now = 1000;
  next_id = 10;
  drawn = 0;
  elevators = lift 3 ∷ lift 4 ∷ [];
  contracts = yearly ∷ [];
  lines = [];
  users = [];
  faults = [];
  notices = [];
}

abbrev put_under : LineCall
put_under = LineCall.add yearly (3 ∷ 4 ∷ []) none

abbrev put_again : LineCall
put_again = LineCall.add yearly (3 ∷ []) none

abbrev end_it : LineCall
end_it = LineCall.finish yearly 739100 (text "moved")

-- How many open lines the contract has after some calls.
unfoldable open_after : List LineCall → ℕ
unfolding run run_all opens is_open_in save_status create_line add_elevator add_elevators end_line
    remove_elevator terminate for_each ◌>>=◌ any select find update sum_where is_space strip_left
    strip
open_after cs = sum_where (is_open_in 1) (λ _. 1) (run_all cs bare).lines

put_twice : open_after (put_under ∷ put_again ∷ []) ≡ 2
unfolding open_after
put_twice = refl

released : open_after (put_under ∷ end_it ∷ []) ≡ 0
unfolding open_after
released = refl

abbrev covered : Fleet
covered = run_all (put_under ∷ []) bare

terminate-IsReleased_example :
    Ends
      (λ t. t ≡ covered)
      (λ g t. (any (is_open_in 1) t.lines ≡ false) × (g ≡ ended 739100 (text "moved") yearly))
      (terminate yearly 739100 (text "moved"))
      covered
terminate-IsReleased_example = terminate-IsReleased yearly 739100 (text "moved") covered

abbrev unpriced : Contract
unpriced = record yearly { vat_rate = none }

abbrev run_out_it : LineCall
run_out_it = LineCall.run_out yearly 739400

-- How many open lines the contract with a key has after some calls.
unfoldable open_under : ℕ → List LineCall → ℕ
unfolding run run_all opens is_open_in save_status create_line add_elevator add_elevators end_line
    remove_elevator terminate for_each ◌>>=◌ any select find update sum_where expire renew
    renew_at_end next_contract_number create_contract hand_on hand_over save_contract_status
    start_successor activate_successor next_term term_from from_ordinal to_ordinal add_months
    days_in_month days_before_month is_leap number_after highest_of numbered number_prefix year_at
    digits zero_padded zeros starts_with text_eq int_of before_dash after_dash
open_under k cs = sum_where (is_open_in k) (λ _. 1) (run_all cs bare).lines

-- The renewed contract hands its two lifts to its successor, whose key is 12.
handed_over : open_under 12 (put_under ∷ run_out_it ∷ []) ≡ 2
unfolding open_under
handed_over = refl

let_go_of : open_under 1 (put_under ∷ run_out_it ∷ []) ≡ 0
unfolding open_under
let_go_of = refl

-- A calendar year with a leap day is followed by one without.
year_after_leap_year : next_term 738886 739251 ≡ (739252, 739616)
unfolding next_term from_ordinal to_ordinal add_months days_in_month days_before_month is_leap
    term_from
year_after_leap_year = refl

-- The highest of the texts is not the highest number from 10000 on, and a number that a client
-- chose need not go on with digits.
number_taken :
    number_after 2026 (highest_of (text "2026-9999" ∷ text "2026-10000" ∷ []))
    ≡ some (text "2026-10000")
unfolding number_after highest_of numbered number_prefix digits zero_padded zeros int_of before_dash
    after_dash text_leb all_digits strip strip_left is_space read
number_taken = refl

number_refused : number_after 2026 (some (text "2026-A1")) ≡ none
unfolding number_after int_of before_dash after_dash all_digits strip strip_left is_space
number_refused = refl

covered_key : 1 < covered.next_id
unfolding run run_all opens save_status create_line add_elevator add_elevators for_each ◌>>=◌ any
    find update
covered_key = omega arith

renew-IsReleased_example :
    Ends
      (λ t. t ≡ covered)
      (λ g t.
        (any (is_open_in 1) t.lines ≡ false)
        × (g ≡ successor_of yearly covered.next_id g.contract_number 739365 739729 false)
        × (t.contracts ≡ superseded yearly g covered.contracts))
      (renew yearly 739365 739729 true false)
      covered
renew-IsReleased_example = renew-IsReleased yearly 739365 739729 true false covered covered_key

expire-IsExpired_example :
    Ends (λ t. t ≡ covered) (IsExpired unpriced 739400 covered) (expire unpriced 739400) covered
expire-IsExpired_example = expire-IsExpired unpriced 739400 covered covered_key

first_of_january : (add_months (from_ordinal 738886) 12).day ≡ (from_ordinal 738886).day
unfolding add_months from_ordinal days_in_month days_before_month is_leap
first_of_january = refl

next_term-months_example :
    next_term 738886 (to_ordinal (add_months (from_ordinal 738886) 12) - 1) ≡ (
      to_ordinal (add_months (from_ordinal 738886) 12),
      to_ordinal (add_months (from_ordinal (to_ordinal (add_months (from_ordinal 738886) 12))) 12)
          - 1,
    )
next_term-months_example = next_term-months 738886 12 (omega arith) first_of_january

next_term-follows_example :
    ((next_term 739000 739364).0 ≡ 739364 + 1)
    × ((next_term 739000 739364).0 < (next_term 739000 739364).1)
next_term-follows_example = next_term-follows 739000 739364 (omega arith)

number_after-numbered_example :
    number_after 2026 (some (numbered 2026 9999)) ≡ some (numbered 2026 (9999 + 1))
number_after-numbered_example = number_after-numbered 2026 9999
