-- ===== src/Faults/Calls.antt =====
-- The calls that write faults, as one type, and any sequence of them with time going by between.
pub mod Writes
pub mod Steps
pub mod History
use shiftlush_api.Prelude.{ℕ, ◌+◌, Bool, Option, List, [], ◌∷◌, Text}
use shiftlush_api.Action.{Action, ⊤, pure, modify, ◌>>=◌, ◌>>◌}
use shiftlush_api.Fleet.{Elevator, FaultPriority, Fleet}
use shiftlush_api.Faults.Rows.{PublicReport}
use shiftlush_api.Faults.Reports.{report_by_staff, report_public, report_by_portal}
use shiftlush_api.Faults.Transitions.{assign, arrive, resolve, close, cancel, Changes, edit}

-- A call, with its arguments, or some seconds that pass.
pub data Call : Type 0 where
  staff_report : Elevator → Text → FaultPriority → ℕ → Option ℕ → Bool → Bool → Call
  public_report : Elevator → PublicReport → Call
  portal_report : ℕ → Elevator → PublicReport → Call
  assign_to : ℕ → ℕ → Call
  arrive_at : ℕ → Call
  resolve_with : ℕ → Text → Text → Bool → Call
  close_it : ℕ → Call
  cancel_for : ℕ → Text → Call
  edit_to : ℕ → Changes → Call
  wait : ℕ → Call

abbrev pub later_by : ℕ → Fleet → Fleet
later_by seconds s = record s { now = s.now + seconds }

module _ (new_reference : ℕ → Text) (local_day : ℕ → ℕ) where
  unfoldable pub run : Call → Action Fleet ⊤
  run (staff_report e description priority reporter technician stopped trapped) =
      report_by_staff new_reference e description priority reporter technician stopped trapped
      >> pure tt
  run (public_report e r) = report_public new_reference e r >> pure tt
  run (portal_report account e r) = report_by_portal new_reference account e r >> pure tt
  run (assign_to k technician) = assign k technician >> pure tt
  run (arrive_at k) = arrive k >> pure tt
  run (resolve_with k notes parts restore_service) =
      resolve local_day k notes parts restore_service >> pure tt
  run (close_it k) = close k >> pure tt
  run (cancel_for k reason) = cancel k reason >> pure tt
  run (edit_to k changes) = edit k changes >> pure tt
  run (wait seconds) = modify (later_by seconds)

  -- The fleet after a sequence of calls, whatever each of them answers.
  unfoldable pub run_all : List Call → Fleet → Fleet
  run_all [] s = s
  run_all (c ∷ cs) s = run_all cs (run c s).1
