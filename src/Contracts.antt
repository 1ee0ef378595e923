-- ===== src/Contracts.antt =====
-- apps/contracts/services.py: lifts put under a contract and taken off it, and termination.
pub mod Terms
pub mod Following
pub mod Numbering
pub mod Renewal
pub mod Calls
pub mod Left
pub mod Lines
pub mod Release
pub mod Tests
use shiftlush_api.Prelude.{
  ℕ, ◌+◌, Bool, true, false, not, ◌&&◌, Option, none, some, List, [], ◌∷◌, ◌++◌, Text, is_none,
  is_empty, strip, find, any, update, select, ◌==◌, if◌then◌else◌,
}
use shiftlush_api.Errors.{
  business_rule, integrity_error, not_found, elevator_already_contracted,
  termination_reason_required, validation_error,
}
use shiftlush_api.Action.{
  Action, ⊤, pure, gets, or_raise, raise_if, atomic, modify, for_each, ◌>>=◌, ◌>>◌,
}
use shiftlush_api.Fleet.{
  ElevatorStatus, Elevator, ContractStatus, Contract, ContractElevator, Fleet,
}

-- A line that is open and not deleted, of an elevator or of a contract.
unfoldable pub opens : ℕ → ContractElevator → Bool
opens elevator l = l.elevator == elevator && is_none l.removed_at && not l.is_deleted

unfoldable pub is_open_in : ℕ → ContractElevator → Bool
is_open_in contract l = l.contract == contract && is_none l.removed_at && not l.is_deleted

abbrev pub has_line_id : ℕ → ContractElevator → Bool
has_line_id k l = l.id == k

abbrev pub ended_on : ℕ → ContractElevator → ContractElevator
ended_on day l = record l { removed_at = some day }

abbrev pub is_elevator : ℕ → Elevator → Bool
is_elevator k e = e.id == k

abbrev pub is_live_elevator : ℕ → Elevator → Bool
is_live_elevator k e = e.id == k && not e.is_deleted

abbrev pub is_uncontracted : ElevatorStatus → Bool
is_uncontracted ElevatorStatus.uncontracted = true
is_uncontracted _ = false

abbrev pub set_to : ElevatorStatus → Elevator → Elevator
set_to status e = record e { status = status }

unfoldable pub save_status : ℕ → ElevatorStatus → Action Fleet ⊤
save_status k status =
    modify λ s. record s { elevators = update (is_elevator k) (set_to status) s.elevators }

abbrev pub activate_if : Bool → ℕ → Action Fleet ⊤
activate_if true k = save_status k ElevatorStatus.active
activate_if false k = pure tt

-- The unique index on a lift's open lines.
abbrev pub has_open_line : ℕ → List ContractElevator → Bool
has_open_line elevator ls = any (opens elevator) ls

-- `ContractElevator.objects.create(...)`, or the index's refusal.
unfoldable pub create_line : Contract → ℕ → Option ℕ → ℕ → Action Fleet ⊤
create_line contract elevator unit_price day = do
  taken ← gets (λ s. has_open_line elevator s.lines)
  raise_if taken integrity_error
  id ← gets (λ s. s.next_id)
  let l : ContractElevator = record {
    id = id;
    company = contract.company;
    contract = contract.id;
    elevator = elevator;
    unit_price = unit_price;
    added_at = day;
    removed_at = none;
    is_deleted = false;
  }
  modify (λ s. record s { lines = s.lines ++ (l ∷ []); next_id = id + 1 })

-- One turn of the loop of `add_elevators`.
unfoldable pub add_elevator : Contract → Option ℕ → ℕ → Action Fleet ⊤
add_elevator contract unit_price k = do
  found ← gets (λ s. find (is_live_elevator k) s.elevators)
  elevator ← or_raise found (business_rule not_found)
  covered ← gets (λ s. any (opens elevator.id) s.lines)
  raise_if covered (business_rule elevator_already_contracted)
  today ← gets (λ s. s.today)
  create_line contract elevator.id unit_price today
  activate_if (is_uncontracted elevator.status) elevator.id

abbrev pub count : List ℕ → ℕ
count [] = 0
count (_ ∷ ks) = count ks + 1

unfoldable pub add_elevators : Contract → List ℕ → Option ℕ → Action Fleet ℕ
add_elevators contract elevator_ids unit_price =
    atomic (do for_each elevator_ids (add_elevator contract unit_price); pure (count elevator_ids))

-- The line is closed and its elevator is covered by nothing now.
unfoldable pub end_line : ℕ → ContractElevator → Action Fleet ⊤
end_line day l = do
  modify (λ s. record s { lines = update (has_line_id l.id) (ended_on day) s.lines })
  save_status l.elevator ElevatorStatus.uncontracted

abbrev pub is_line_of : ℕ → ℕ → ContractElevator → Bool
is_line_of contract elevator l = is_open_in contract l && l.elevator == elevator

unfoldable pub remove_elevator : Contract → ℕ → Action Fleet ⊤
unfolding is_open_in
remove_elevator contract elevator = atomic (do
  found ← gets (λ s. find (is_line_of contract.id elevator) s.lines)
  line ← or_raise found (business_rule not_found)
  today ← gets (λ s. s.today)
  end_line today line)

abbrev pub is_over : ContractStatus → Bool
is_over ContractStatus.terminated = true
is_over ContractStatus.renewed = true
is_over _ = false

abbrev pub ended : ℕ → Text → Contract → Contract
ended day reason c = record c {
  status = ContractStatus.terminated;
  terminated_at = some day;
  termination_reason = reason;
  auto_renew = false;
}

abbrev pub is_contract : ℕ → Contract → Bool
is_contract k c = c.id == k

unfoldable pub terminate : Contract → ℕ → Text → Action Fleet Contract
terminate contract day reason = atomic (do
  raise_if (is_empty (strip reason)) (business_rule termination_reason_required)
  raise_if (is_over contract.status) (business_rule validation_error)
  open_lines ← gets (λ s. select (is_open_in contract.id) s.lines)
  for_each open_lines (end_line day)
  modify (λ s. record s {
    contracts = update (is_contract contract.id) (ended day reason) s.contracts;
  })
  pure (ended day reason contract))
