-- ===== src/Faults/Tests.antt =====
-- A concrete fleet, runs of calls on it, and an example of each theorem on faults.
use shiftlush_api.Prelude.{
  ℕ, ◌+◌, ◌*◌, ◌/◌, ◌≤◌, ◌<◌, Extends, any, ◌≡◌, refl, true, false, Option, none, some, List, [],
  ◌∷◌, Text, text, length, arith, select, find, update, put, text_eq, is_space, strip_left, strip,
}
use shiftlush_api.Action.{
  ok, pure, raise, gets, or_raise, atomic, raise_if, modify, ◌>>=◌, for_each,
}
use shiftlush_api.Fleet.{
  ElevatorStatus, Elevator, Role, User, FaultChannel, FaultPriority, FaultStatus, Fault, Fleet,
}
use shiftlush_api.Faults.Rows.{
  PublicReport, merged, new_fault, public_priority, priority_rank, is_mergeable, newest,
}
use shiftlush_api.Faults.Reports.{
  uses_reference, insert, named, create_fault, set_elevator_status, stop, save_fault, merge,
  report_by_staff, report_public, report_by_portal,
}
use shiftlush_api.Faults.Retention.{forget_public_reporters, IsForgotten, forget-IsForgotten}
use shiftlush_api.Faults.Lifecycle.{is_sound}
use shiftlush_api.Faults.Table.{IsSound, IsAfter}
use shiftlush_api.Faults.Merging.{insert_returns, after_insert}
use shiftlush_api.Faults.Calls.{Call, run_all, run}
use shiftlush_api.Faults.Calls.History.{run_all-IsSound, run_all-IsAfter}
use shiftlush_api.Faults.Notices.{
  office, customer_of, customer_technicians, add_person, add_people, without, report_people, notify,
  announce_report, announce_assignment, announce_resolution,
}
use shiftlush_api.Faults.Covering.{covers, latest_line, covering_scope, billed_under}
use shiftlush_api.Faults.Transitions.{
  locked, assign, arrive, derive_billable, resolve, close, cancel, edited, edit,
}

-- The references drawn: one letter, then the next.
abbrev letter : ℕ → Text
letter k = (65 + k) ∷ []

-- Days of UTC+3.
abbrev istanbul_day : ℕ → ℕ
istanbul_day t = (t + 3 * 3600) / 86400 + 719163

abbrev lift : Elevator
lift = record {
  id = 1;
  company = 1;
  customer = 2;
  status = ElevatorStatus.active;
  is_deleted = false;
}

abbrev engineer : User
engineer = record {
  id = 3;
  company = 1;
  role = Role.technician;
  is_active = true;
  customers = 2 ∷ [];
}

abbrev stuck_lift : PublicReport
stuck_lift = record {
  description = text "stuck";
  someone_trapped = true;
  elevator_stopped = true;
  reporter_name = text "Ada";
  reporter_phone = [];
}

abbrev slow_door : PublicReport
slow_door = record {
  description = text "slow door";
  someone_trapped = false;
  elevator_stopped = false;
  reporter_name = text "Can";
  reporter_phone = text "1";
}

-- One fault, reported at 900 by a resident.
abbrev standing : Fault
standing = named slow_door (
    new_fault lift FaultChannel.public_qr none none (text "slow door") FaultPriority.normal 900
      false (letter 0) 9)

abbrev quiet : Fleet
quiet = record {
  today = 719163;
  now = 1000;
  next_id = 10;
  drawn = 0;
  elevators = lift ∷ [];
  contracts = [];
  lines = [];
  users = engineer ∷ [];
  faults = standing ∷ [];
  notices = [];
}

quiet-IsSound : IsSound quiet
unfolding is_sound
quiet-IsSound = record { ascending = (tt, tt); keys_used = (omega arith, tt); sound = (refl, tt) }

abbrev rescue : List Call
rescue =
    Call.public_report lift stuck_lift
    ∷ Call.assign_to 9 3
    ∷ Call.wait 600
    ∷ Call.arrive_at 9
    ∷ Call.resolve_with 9 (text "reset") [] true
    ∷ Call.close_it 9
    ∷ Call.cancel_for 9 []
    ∷ []

run_all-IsSound_example : IsSound (run_all letter istanbul_day rescue quiet)
run_all-IsSound_example = run_all-IsSound letter istanbul_day rescue quiet quiet-IsSound

run_all-IsAfter_example : IsAfter quiet (run_all letter istanbul_day rescue quiet)
run_all-IsAfter_example = run_all-IsAfter letter istanbul_day rescue quiet quiet-IsSound

abbrev numbered : Text → ℕ → Fault
numbered r id = record standing { reference = r; id = id }

-- The first reference drawn is taken, the second is free.
insert_returns_example :
    (j : ℕ) × (0 ≤ j)
    × (any (uses_reference 1 (letter j)) quiet.faults ≡ false)
    × ((i : ℕ) → 0 ≤ i → i < j → any (uses_reference 1 (letter i)) quiet.faults ≡ true)
    × (insert letter 8 1 numbered quiet
        ≡ (ok (numbered (letter j) quiet.next_id), after_insert letter j numbered quiet))
unfolding uses_reference any text_eq
insert_returns_example = insert_returns letter 8 1 numbered quiet 1 (omega arith) (omega arith) refl

-- A year on, the reporter of a fault that has been closed since is forgotten.
abbrev old : Fleet
old = record quiet {
  faults = record standing { status = FaultStatus.closed; closed_at = some 950 } ∷ [];
}

forget-IsForgotten_example :
    let s' = (forget_public_reporters 31536000 old).1 in
    Extends (IsForgotten 31536000) old.faults s'.faults
    × (length s'.faults ≡ 1)
    × (forget_public_reporters 31536000 s' ≡ (ok 0, s'))
forget-IsForgotten_example = forget-IsForgotten 31536000 old

abbrev first_status : List Fault → Option (FaultStatus × ℕ)
first_status [] = none
first_status (f ∷ _) = some (f.status, length f.additional_reports)

-- The status of the first fault after some calls, and how many reports were merged into it.
unfoldable status_after : List Call → Fleet → Option (FaultStatus × ℕ)
unfolding pure raise gets or_raise atomic raise_if modify ◌>>=◌ for_each office customer_of
    customer_technicians add_person add_people without report_people notify announce_report
    announce_assignment announce_resolution uses_reference create_fault set_elevator_status stop
    public_priority priority_rank is_mergeable newest merged save_fault merge insert report_by_staff
    report_public report_by_portal locked assign arrive covers latest_line covering_scope
    billed_under derive_billable resolve close cancel edited edit run run_all select find any update
    put text_eq is_space strip_left strip
status_after cs s = first_status (run_all letter istanbul_day cs s).faults

-- The rescue ends closed: the cancellation at its end is refused.
rescued : status_after rescue quiet ≡ some (FaultStatus.closed, 1)
unfolding status_after
rescued = refl
