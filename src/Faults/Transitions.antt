-- ===== src/Faults/Transitions.antt =====
-- apps/faults/services.py: the transitions of a fault and its billing. `local_day` is the day of a
-- time in Istanbul (`timezone.localtime(...).date()`).
use shiftlush_api.Prelude.{
  ℕ, Bool, true, false, not, ◌&&◌, ◌||◌, Option, none, some, Text, is_some, opt_eq, find,
  if◌then◌else◌,
}
use shiftlush_api.Errors.{Error, does_not_exist, conflict, fault_transition_not_allowed}
use shiftlush_api.Action.{Action, ⊤, gets, pure, or_raise, raise_if, atomic, ◌>>=◌, ◌>>◌}
use shiftlush_api.Fleet.{ElevatorStatus, Elevator, FaultPriority, FaultStatus, Fault, Fleet}
use shiftlush_api.Faults.Notices.{
  announce_assignment, announce_resolution, is_emergency, has_elevator_id,
}
use shiftlush_api.Faults.Reports.{has_fault_id, save_fault, set_elevator_status, announce_if}
use shiftlush_api.Faults.Covering.{covering_scope, billed_under}

abbrev pub refusal : Error
refusal = conflict fault_transition_not_allowed

abbrev pub is_live_fault : ℕ → Fault → Bool
is_live_fault k f = has_fault_id k f && not f.is_deleted

-- `_locked`
unfoldable pub locked : ℕ → Action Fleet Fault
locked k = do
  found ← gets (λ s. find (is_live_fault k) s.faults)
  or_raise found (does_not_exist "fault")

abbrev pub is_open : FaultStatus → Bool
is_open FaultStatus.opened = true
is_open _ = false

abbrev pub is_assigned : FaultStatus → Bool
is_assigned FaultStatus.assigned = true
is_assigned _ = false

abbrev pub is_on_site : FaultStatus → Bool
is_on_site FaultStatus.on_site = true
is_on_site _ = false

abbrev pub is_resolved : FaultStatus → Bool
is_resolved FaultStatus.resolved = true
is_resolved _ = false

abbrev pub is_closed : FaultStatus → Bool
is_closed FaultStatus.closed = true
is_closed _ = false

abbrev pub is_cancelled : FaultStatus → Bool
is_cancelled FaultStatus.cancelled = true
is_cancelled _ = false

-- `CANCELLABLE`
abbrev pub is_cancellable : FaultStatus → Bool
is_cancellable status = is_open status || is_assigned status || is_on_site status

abbrev pub assigned_fault : ℕ → ℕ → Fault → Fault
assigned_fault technician now f = record f {
  technician = some technician;
  status = FaultStatus.assigned;
  assigned_at = some now;
}

-- `return fault` when it is already theirs
abbrev pub reassign : Bool → Fault → ℕ → Action Fleet Fault
reassign true f technician = pure f
reassign false f technician = do
  now ← gets (λ s. s.now)
  save_fault (assigned_fault technician now f)
  announce_assignment (assigned_fault technician now f) technician
  pure (assigned_fault technician now f)

unfoldable pub assign : ℕ → ℕ → Action Fleet Fault
assign k technician = atomic (do
  f ← locked k
  raise_if (not (is_open f.status || is_assigned f.status)) refusal
  reassign (is_assigned f.status && opt_eq f.technician (some technician)) f technician)

abbrev pub arrived : ℕ → Fault → Fault
arrived now f = record f { status = FaultStatus.on_site; on_site_at = some now }

unfoldable pub arrive : ℕ → Action Fleet Fault
arrive k = atomic (do
  f ← locked k
  raise_if (not (is_assigned f.status)) refusal
  now ← gets (λ s. s.now)
  save_fault (arrived now f)
  pure (arrived now f))

abbrev pub resolved_fault : ℕ → Text → Text → Option Bool → Fault → Fault
resolved_fault now notes parts billable f = record f {
  status = FaultStatus.resolved;
  resolved_at = some now;
  resolution_notes = notes;
  parts_used = parts;
  billable = billable;
}

abbrev is_out_of_service : ElevatorStatus → Bool
is_out_of_service ElevatorStatus.out_of_service = true
is_out_of_service _ = false

abbrev pub is_stopped : Option Elevator → Bool
is_stopped none = false
is_stopped (some e) = is_out_of_service e.status

abbrev pub restore_if : Bool → ℕ → Action Fleet ⊤
restore_if true k = set_elevator_status k ElevatorStatus.active
restore_if false k = pure tt

module _ (local_day : ℕ → ℕ) where
  unfoldable pub derive_billable : Fault → Fleet → Bool
  derive_billable f s =
      billed_under (covering_scope f.elevator (local_day f.reported_at) s) f.parts_used

  unfoldable pub resolve : ℕ → Text → Text → Bool → Action Fleet Fault
  resolve k notes parts restore_service = atomic (do
    f ← locked k
    raise_if (not (is_on_site f.status)) refusal
    now ← gets (λ s. s.now)
    derived ← gets (λ s. derive_billable (record f { parts_used = parts }) s)
    let done =
        resolved_fault now notes parts (if f.billable_overridden then f.billable else some derived)
          f
    save_fault done
    elevator ← gets (λ s. find (has_elevator_id f.elevator) s.elevators)
    restore_if (restore_service && is_stopped elevator) f.elevator
    announce_resolution done
    pure done)

abbrev pub closed_fault : ℕ → Fault → Fault
closed_fault now f = record f { status = FaultStatus.closed; closed_at = some now }

unfoldable pub close : ℕ → Action Fleet Fault
close k = atomic (do
  f ← locked k
  raise_if (not (is_resolved f.status)) refusal
  now ← gets (λ s. s.now)
  save_fault (closed_fault now f)
  pure (closed_fault now f))

abbrev pub cancelled_fault : ℕ → Text → Fault → Fault
cancelled_fault now reason f = record f {
  status = FaultStatus.cancelled;
  cancelled_at = some now;
  cancel_reason = reason;
}

unfoldable pub cancel : ℕ → Text → Action Fleet Fault
cancel k reason = atomic (do
  f ← locked k
  raise_if (not (is_cancellable f.status)) refusal
  now ← gets (λ s. s.now)
  save_fault (cancelled_fault now reason f)
  pure (cancelled_fault now reason f))

-- The fields that `FaultEditSerializer` lets through, each if it is stated.
pub record Changes : Type 0 where
  pub priority : Option FaultPriority
  pub description : Option Text
  pub billable : Option Bool

abbrev pub or_kept : {A : Type 0} → Option A → A → A
or_kept none a = a
or_kept (some b) _ = b

abbrev pub stated : Option Bool → Option Bool → Option Bool
stated none b = b
stated (some c) _ = some c

unfoldable pub edited : Changes → Fault → Fault
edited c f = record f {
  priority = or_kept c.priority f.priority;
  description = or_kept c.description f.description;
  billable = stated c.billable f.billable;
  billable_overridden = is_some c.billable || f.billable_overridden;
}

unfoldable pub edit : ℕ → Changes → Action Fleet Fault
unfolding edited
edit k changes = atomic (do
  f ← locked k
  save_fault (edited changes f)
  announce_if (is_emergency (edited changes f).priority && not (is_emergency f.priority))
      (edited changes f)
  pure (edited changes f))
