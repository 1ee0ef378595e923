-- ===== src/Faults/Reports.antt =====
-- apps/faults/services.py: a fault is reported by the staff, from the sticker's QR code or from the
-- customers' portal. The random references are a parameter: `new_reference k` is the k-th drawn.
use shiftlush_api.Prelude.{
  ℕ, zero, suc, ◌+◌, any, Bool, true, false, not, ◌&&◌, Option, none, some, [], ◌∷◌, ◌++◌, Text,
  text_eq, find, any, update, put, ◌==◌, if◌then◌else◌,
}
use shiftlush_api.Errors.{runtime_error}
use shiftlush_api.Action.{Action, ⊤, modify, gets, pure, raise, atomic, ◌>>=◌, ◌>>◌}
use shiftlush_api.Fleet.{
  ElevatorStatus, Elevator, FaultChannel, FaultPriority, FaultStatus, Fault, Fleet,
}
use shiftlush_api.Faults.Notices.{
  announce_report, announce_assignment, is_emergency, has_elevator_id,
}
use shiftlush_api.Faults.Rows.{
  PublicReport, public_priority, new_fault, is_mergeable, newest, escalates, merged,
}

abbrev pub has_fault_id : ℕ → Fault → Bool
has_fault_id k f = f.id == k

-- The rows that `uq_fault_reference_per_company` compares a new one with.
unfoldable pub uses_reference : ℕ → Text → Fault → Bool
uses_reference company reference f =
    f.company == company && text_eq f.reference reference && not f.is_deleted

unfoldable pub create_fault : (ℕ → Fault) → Action Fleet Fault
create_fault row = do
  id ← gets (λ s. s.next_id)
  modify (λ s. record s { faults = s.faults ++ (row id ∷ []); next_id = id + 1 })
  pure (row id)

abbrev pub reference_attempts : ℕ
reference_attempts = 8

abbrev is_active : ElevatorStatus → Bool
is_active ElevatorStatus.active = true
is_active _ = false

abbrev pub with_status : ElevatorStatus → Elevator → Elevator
with_status status e = record e { status = status }

unfoldable pub set_elevator_status : ℕ → ElevatorStatus → Action Fleet ⊤
set_elevator_status k status =
    modify λ s. record s { elevators = update (has_elevator_id k) (with_status status) s.elevators }

-- `_stop`
unfoldable pub stop : Elevator → Action Fleet ⊤
stop e =
    if is_active e.status then set_elevator_status e.id ElevatorStatus.out_of_service else pure tt

abbrev pub stop_if : Bool → Elevator → Action Fleet ⊤
stop_if true e = stop e
stop_if false e = pure tt

-- `technician=…, status=…, assigned_at=…` of `report_by_staff`
abbrev pub given_to : Option ℕ → Fault → Fault
given_to none f = f
given_to (some t) f = record f {
  status = FaultStatus.assigned;
  technician = some t;
  assigned_at = some f.reported_at;
}

abbrev pub announce_technician : Fault → Option ℕ → Action Fleet ⊤
announce_technician fault none = pure tt
announce_technician fault (some t) = announce_assignment fault t

unfoldable pub save_fault : Fault → Action Fleet ⊤
save_fault f = modify λ s. record s { faults = put (has_fault_id f.id) f s.faults }

abbrev pub stop_found : Bool → Option Elevator → Action Fleet ⊤
stop_found stops none = pure tt
stop_found stops (some e) = stop_if stops e

abbrev pub announce_if : Bool → Fault → Action Fleet ⊤
announce_if true f = announce_report f
announce_if false f = pure tt

-- `_merge`
unfoldable pub merge : Fault → PublicReport → FaultPriority → ℕ → Action Fleet Fault
merge f r priority at_time = do
  elevator ← gets (λ s. find (has_elevator_id f.elevator) s.elevators)
  stop_found (r.elevator_stopped && not f.stopped_elevator) elevator
  save_fault (merged r priority at_time f)
  announce_if (escalates priority f && is_emergency priority) (merged r priority at_time f)
  pure (merged r priority at_time f)

abbrev pub named : PublicReport → Fault → Fault
named r f = record f { reporter_name = r.reporter_name; reporter_phone = r.reporter_phone }

module _ (new_reference : ℕ → Text) where
  -- `_insert`, with the attempts left
  unfoldable pub insert : ℕ → ℕ → (Text → ℕ → Fault) → Action Fleet Fault
  insert zero company row = raise runtime_error
  insert (suc attempts) company row = do
    k ← gets (λ s. s.drawn)
    modify (λ s. record s { drawn = k + 1 })
    taken ← gets (λ s. any (uses_reference company (new_reference k)) s.faults)
    let later = insert attempts company row
    if taken then later else create_fault (row (new_reference k))

  unfoldable pub report_by_staff :
      Elevator → Text → FaultPriority → ℕ → Option ℕ → Bool → Bool → Action Fleet Fault
  report_by_staff e description priority reporter technician stopped trapped = atomic (do
    now ← gets (λ s. s.now)
    fault ← insert reference_attempts e.company (λ reference id. given_to technician (
        new_fault e FaultChannel.staff (some reporter) none description
          (if trapped then FaultPriority.emergency else priority) now stopped reference id))
    stop_if stopped e
    announce_report fault
    announce_technician fault technician
    pure fault)

  abbrev first_report : Elevator → PublicReport → ℕ → Action Fleet Fault
  first_report e r now = do
    fault ← insert reference_attempts e.company (λ reference id. named r (
        new_fault e FaultChannel.public_qr none none r.description (public_priority r) now
          r.elevator_stopped reference id))
    stop_if r.elevator_stopped e
    announce_report fault
    pure fault

  abbrev pub merged_or_first : Elevator → PublicReport → ℕ → Option Fault → Action Fleet Fault
  merged_or_first e r now none = first_report e r now
  merged_or_first e r now (some f) = merge f r (public_priority r) now

  unfoldable pub report_public : Elevator → PublicReport → Action Fleet Fault
  report_public e r = atomic (do
    now ← gets (λ s. s.now)
    existing ← gets (λ s. newest (is_mergeable e.id now) s.faults)
    merged_or_first e r now existing)

  unfoldable pub report_by_portal : ℕ → Elevator → PublicReport → Action Fleet Fault
  report_by_portal account e r = atomic (do
    now ← gets (λ s. s.now)
    fault ← insert reference_attempts e.company (λ reference id.
        new_fault e FaultChannel.customer_portal none (some account) r.description
          (public_priority r) now r.elevator_stopped reference id)
    stop_if r.elevator_stopped e
    announce_report fault
    pure fault)
