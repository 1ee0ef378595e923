-- ===== src/Faults/Notices.antt =====
-- apps/faults/services.py: who is told of a report, an assignment and a resolution. A call of
-- `notify` is kept as a notice in the fleet; its wording is left out.
use shiftlush_api.Prelude.{
  ℕ, Bool, true, false, not, ◌&&◌, Option, none, some, List, [], ◌∷◌, ◌++◌, opt_eq, find, any,
  select, map, ◌==◌, if◌then◌else◌,
}
use shiftlush_api.Action.{Action, ⊤, modify, gets, pure, ◌>>=◌}
use shiftlush_api.Fleet.{
  Elevator, Role, User, FaultChannel, FaultPriority, Fault, NoticeKind, Fleet,
}

abbrev pub in_office : Role → Bool
in_office Role.owner = true
in_office Role.admin = true
in_office Role.operations = true
in_office _ = false

abbrev pub is_technician : Role → Bool
is_technician Role.technician = true
is_technician _ = false

abbrev pub works_in_office : ℕ → User → Bool
works_in_office company u = u.company == company && in_office u.role && u.is_active

-- `_office`
unfoldable pub office : ℕ → List User → List ℕ
office company users = map (λ u. u.id) (select (works_in_office company) users)

abbrev pub has_elevator_id : ℕ → Elevator → Bool
has_elevator_id k e = e.id == k

-- `fault.elevator.building.customer_id`
unfoldable pub customer_of : ℕ → List Elevator → Option ℕ
customer_of elevator es = elim (find (has_elevator_id elevator) es) [
  | none ↦ none
  | some e ↦ some e.customer
]

abbrev pub is_assigned_to : Option ℕ → User → Bool
is_assigned_to customer u = any (λ c. opt_eq (some c) customer) u.customers

abbrev pub serves : ℕ → Option ℕ → User → Bool
serves company customer u =
    u.company == company && is_technician u.role && u.is_active && is_assigned_to customer u

-- `_customer_technicians`
unfoldable pub customer_technicians : Fault → Fleet → List ℕ
customer_technicians fault s =
    map (λ u. u.id) (select (serves fault.company (customer_of fault.elevator s.elevators)) s.users)

abbrev pub is_emergency : FaultPriority → Bool
is_emergency FaultPriority.emergency = true
is_emergency _ = false

-- `people[pk] = user` in a dict that keeps its order
unfoldable pub add_person : ℕ → List ℕ → List ℕ
add_person k people = if any (λ j. j == k) people then people else people ++ (k ∷ [])

unfoldable pub add_people : List ℕ → List ℕ → List ℕ
unfolding add_person
add_people [] people = people
add_people (k ∷ ks) people = add_people ks (add_person k people)

abbrev pub add_technician : Bool → Option ℕ → List ℕ → List ℕ
add_technician true (some k) people = add_person k people
add_technician _ _ people = people

unfoldable pub without : Option ℕ → List ℕ → List ℕ
without reporter people = select (λ k. not (opt_eq (some k) reporter)) people

unfoldable pub report_people : Fault → Fleet → List ℕ
unfolding office customer_technicians add_people without
report_people fault s =
    let called = add_people (office fault.company s.users ++ customer_technicians fault s) [] in
    without fault.reported_by (add_technician (is_emergency fault.priority) fault.technician called)

unfoldable pub notify : NoticeKind → ℕ → List ℕ → Action Fleet ⊤
notify kind fault recipients = modify λ s. record s {
  notices = s.notices ++ (record { kind = kind; fault = fault; recipients = recipients } ∷ []);
}

-- `_announce_report`
unfoldable pub announce_report : Fault → Action Fleet ⊤
announce_report fault = do
  people ← gets (report_people fault)
  notify
      (if is_emergency fault.priority
        then NoticeKind.fault_emergency
        else NoticeKind.fault_reported)
      fault.id people

abbrev pub is_staff : FaultChannel → Bool
is_staff FaultChannel.staff = true
is_staff _ = false

-- `_announce_assignment`, to the technician just assigned
unfoldable pub announce_assignment : Fault → ℕ → Action Fleet ⊤
announce_assignment fault technician =
    if opt_eq (some technician) fault.reported_by && is_staff fault.channel
    then pure tt
    else notify NoticeKind.fault_assigned fault.id (technician ∷ [])

-- `_announce_resolution`
unfoldable pub announce_resolution : Fault → Action Fleet ⊤
announce_resolution fault = do
  people ← gets (λ s. office fault.company s.users)
  notify NoticeKind.fault_resolved fault.id people
