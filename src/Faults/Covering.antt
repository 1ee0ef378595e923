-- ===== src/Faults/Covering.antt =====
-- apps/faults/services.py: the contract that covered a lift on a day, and what it is billed under.
use shiftlush_api.Prelude.{
  ℕ, Bool, true, false, not, ◌&&◌, ◌||◌, Option, none, some, List, [], ◌∷◌, Text, is_empty, strip,
  leb, ltb, find, ◌==◌, if◌then◌else◌,
}
use shiftlush_api.Fleet.{ContractStatus, Scope, Contract, ContractElevator, Fleet}

abbrev is_draft : ContractStatus → Bool
is_draft ContractStatus.draft = true
is_draft _ = false

abbrev pub ends_from : Option ℕ → ℕ → Bool
ends_from none day = true
ends_from (some removed) day = leb day removed

-- The filter on the line's contract.
abbrev pub contract_covers : ℕ → Contract → Bool
contract_covers day c =
    leb c.start_date day && leb day c.end_date && not c.is_deleted && not (is_draft c.status)

abbrev pub has_contract_id : ℕ → Contract → Bool
has_contract_id k c = c.id == k

abbrev pub found_covers : ℕ → Option Contract → Bool
found_covers day none = false
found_covers day (some c) = contract_covers day c

unfoldable pub covers : ℕ → ℕ → List Contract → ContractElevator → Bool
covers elevator day cs l =
    l.elevator == elevator
    && leb l.added_at day
    && ends_from l.removed_at day
    && not l.is_deleted
    && found_covers day (find (has_contract_id l.contract) cs)

-- `.order_by("-added_at", "-id").first()`
abbrev pub is_later : ContractElevator → ContractElevator → Bool
is_later l m = ltb m.added_at l.added_at || (l.added_at == m.added_at && ltb m.id l.id)

abbrev pub later_line : ContractElevator → Option ContractElevator → Option ContractElevator
later_line l none = some l
later_line l (some m) = if is_later l m then some l else some m

unfoldable pub latest_line :
    (ContractElevator → Bool) → List ContractElevator → Option ContractElevator
latest_line p [] = none
latest_line p (l ∷ ls) = let rest = latest_line p ls in if p l then later_line l rest else rest

abbrev pub scope_of : Option Contract → Option Scope
scope_of none = none
scope_of (some c) = some c.scope

abbrev pub line_scope : List Contract → Option ContractElevator → Option Scope
line_scope cs none = none
line_scope cs (some l) = scope_of (find (has_contract_id l.contract) cs)

unfoldable pub covering_scope : ℕ → ℕ → Fleet → Option Scope
covering_scope elevator day s =
    line_scope s.contracts (latest_line (covers elevator day s.contracts) s.lines)

unfoldable pub billed_under : Option Scope → Text → Bool
billed_under (some Scope.full_coverage) parts = false
billed_under (some Scope.maintenance_and_repair) parts = not (is_empty (strip parts))
billed_under _ parts = true
