-- ===== src/Contracts/Renewal.antt =====
-- apps/contracts/services.py: a contract superseded by another, and one that has run out.
use shiftlush_api.Prelude.{
  ℕ, ◌+◌, Bool, true, false, not, ◌&&◌, ◌||◌, Option, none, some, [], ◌∷◌, ◌++◌, Text, text_eq, any,
  update, select, map, leb, ◌==◌, if◌then◌else◌,
}
use shiftlush_api.Errors.{
  business_rule, integrity_error, runtime_error, end_date_before_start_date, validation_error,
}
use shiftlush_api.Action.{
  Action, ⊤, pure, gets, or_raise, raise_if, atomic, modify, for_each, ◌>>=◌, ◌>>◌,
}
use shiftlush_api.Fleet.{ElevatorStatus, ContractStatus, Contract, ContractElevator, Fleet}
use shiftlush_api.Contracts.{
  is_open_in, has_line_id, ended_on, save_status, create_line, end_line, is_over, is_contract,
}
use shiftlush_api.Contracts.Terms.{
  next_term, starts_with, highest_of, number_prefix, number_after, year_at,
}

abbrev is_numbered : ℕ → Text → Contract → Bool
is_numbered company prefix c = c.company == company && starts_with prefix c.contract_number

unfoldable pub next_contract_number : ℕ → Action Fleet Text
unfolding starts_with
next_contract_number company = do
  now ← gets (λ s. s.now)
  let year = year_at now
  numbers ← gets (λ s.
      map (λ c. c.contract_number) (select (is_numbered company (number_prefix year)) s.contracts))
  or_raise (number_after year (highest_of numbers)) runtime_error

abbrev clashes_with : Contract → Contract → Bool
clashes_with new c =
    c.company == new.company && text_eq c.contract_number new.contract_number && not c.is_deleted

abbrev if_copied : Bool → Option ℕ → Option ℕ
if_copied copy value = if copy then value else none

-- The row that supersedes `c`.
abbrev pub successor_of : Contract → ℕ → Text → ℕ → ℕ → Bool → Contract
successor_of c id number start end copy_terms = record {
  id = id;
  company = c.company;
  customer = c.customer;
  contract_number = number;
  status = ContractStatus.draft;
  scope = c.scope;
  start_date = start;
  end_date = end;
  pricing_type = c.pricing_type;
  monthly_fee = if_copied copy_terms c.monthly_fee;
  currency = c.currency;
  vat_rate = if_copied copy_terms c.vat_rate;
  billing_period = c.billing_period;
  auto_renew = c.auto_renew;
  renewal_notice_days = c.renewal_notice_days;
  previous_contract = some c.id;
  terminated_at = none;
  termination_reason = [];
  is_deleted = false;
}

-- The firm has each number once.
unfoldable pub create_contract : (Text → ℕ → Contract) → Text → Action Fleet Contract
create_contract row number = do
  id ← gets (λ s. s.next_id)
  let contract = row number id
  taken ← gets (λ s. any (clashes_with contract) s.contracts)
  raise_if taken integrity_error
  modify (λ s. record s { contracts = s.contracts ++ (contract ∷ []); next_id = id + 1 })
  pure contract

-- The elevator goes on to the successor, or to no contract.
unfoldable pub hand_on : Contract → Bool → Bool → ℕ → ContractElevator → Action Fleet ⊤
hand_on successor true copy_terms day l =
    create_line successor l.elevator (if_copied copy_terms l.unit_price) day
hand_on successor false copy_terms day l = save_status l.elevator ElevatorStatus.uncontracted

unfoldable pub hand_over : Contract → Bool → Bool → ℕ → ContractElevator → Action Fleet ⊤
hand_over successor carry_elevators copy_terms day l = do
  modify (λ s. record s { lines = update (has_line_id l.id) (ended_on day) s.lines })
  hand_on successor carry_elevators copy_terms day l

abbrev pub with_contract_status : ContractStatus → Contract → Contract
with_contract_status status c = record c { status = status }

unfoldable pub save_contract_status : Contract → ContractStatus → Action Fleet ⊤
save_contract_status contract status = modify λ s. record s {
  contracts = update (is_contract contract.id) (with_contract_status status) s.contracts;
}

unfoldable pub renew : Contract → ℕ → ℕ → Bool → Bool → Action Fleet Contract
unfolding is_open_in
renew contract start_date end_date carry_elevators copy_terms = atomic (do
  raise_if (is_over contract.status) (business_rule validation_error)
  raise_if (leb end_date start_date) (business_rule end_date_before_start_date)
  number ← next_contract_number contract.company
  successor ←
      create_contract (λ number id. successor_of contract id number start_date end_date copy_terms)
        number
  open_lines ← gets (λ s. select (is_open_in contract.id) s.lines)
  for_each open_lines (hand_over successor carry_elevators copy_terms start_date)
  save_contract_status contract ContractStatus.renewed
  pure successor)

pub data ExpiryKind : Type 0 where
  expired auto_renewed auto_renewal_blocked : ExpiryKind

-- What `expire` did. The contract and its successor are named by their rows as they then are.
pub record ExpiryOutcome : Type 0 where
  pub kind : ExpiryKind
  pub contract : Contract
  pub successor : Option Contract

abbrev pub is_active_contract : ContractStatus → Bool
is_active_contract ContractStatus.active = true
is_active_contract _ = false

unfoldable pub activate_successor : Contract → Contract → Action Fleet (Option ExpiryOutcome)
activate_successor contract successor = do
  save_contract_status successor ContractStatus.active
  pure (
      some (record {
        kind = ExpiryKind.auto_renewed;
        contract = with_contract_status ContractStatus.renewed contract;
        successor = some (with_contract_status ContractStatus.active successor);
      }))

-- A successor with no VAT rate stays a draft.
unfoldable pub start_successor :
    Option ℕ → Contract → Contract → Action Fleet (Option ExpiryOutcome)
start_successor none contract successor = pure (
    some (record {
      kind = ExpiryKind.auto_renewal_blocked;
      contract = with_contract_status ContractStatus.renewed contract;
      successor = some successor;
    }))
start_successor (some vat_rate) contract successor = activate_successor contract successor

unfoldable pub renew_at_end : Contract → Action Fleet (Option ExpiryOutcome)
renew_at_end contract = do
  let term = next_term contract.start_date contract.end_date
  successor ← renew contract term.0 term.1 true true
  start_successor successor.vat_rate contract successor

unfoldable pub let_go : Contract → Action Fleet (Option ExpiryOutcome)
unfolding is_open_in
let_go contract = do
  open_lines ← gets (λ s. select (is_open_in contract.id) s.lines)
  for_each open_lines (end_line (contract.end_date + 1))
  save_contract_status contract ContractStatus.expired
  pure (
      some (record {
        kind = ExpiryKind.expired;
        contract = with_contract_status ContractStatus.expired contract;
        successor = none;
      }))

unfoldable pub expire : Contract → ℕ → Action Fleet (Option ExpiryOutcome)
expire contract today = atomic (
    if not (is_active_contract contract.status) || leb today contract.end_date
    then pure none
    else if contract.auto_renew
    then renew_at_end contract
    else let_go contract)
