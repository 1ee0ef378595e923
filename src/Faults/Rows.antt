-- ===== src/Faults/Rows.antt =====
-- apps/faults/services.py: the row that a report leaves, and what a public report adds to the row that
-- it is merged into.
use shiftlush_api.Prelude.{
  ℕ, ◌+◌, ◌*◌, Bool, true, false, not, ◌&&◌, ◌||◌, Option, none, some, List, [], ◌∷◌, ◌++◌, Text,
  is_empty, leb, ltb, ◌==◌, if◌then◌else◌,
}
use shiftlush_api.Fleet.{
  Elevator, FaultChannel, FaultPriority, FaultStatus, AdditionalReport, Fault,
}

pub record PublicReport : Type 0 where
  pub description : Text
  pub someone_trapped : Bool
  pub elevator_stopped : Bool
  pub reporter_name : Text
  pub reporter_phone : Text

unfoldable pub public_priority : PublicReport → FaultPriority
public_priority r =
    if r.someone_trapped
    then FaultPriority.emergency
    else if r.elevator_stopped
    then FaultPriority.high
    else FaultPriority.normal

-- `_PRIORITY_RANK`
unfoldable pub priority_rank : FaultPriority → ℕ
priority_rank FaultPriority.emergency = 0
priority_rank FaultPriority.high = 1
priority_rank FaultPriority.normal = 2

abbrev pub public_merge_window : ℕ
public_merge_window = 30 * 60

-- A fault as its report leaves it, but for its technician.
abbrev pub new_fault :
    Elevator
    → FaultChannel
    → Option ℕ
    → Option ℕ
    → Text
    → FaultPriority
    → ℕ
    → Bool
    → Text
    → ℕ
    → Fault
new_fault e channel reporter account description priority now stopped reference id = record {
  id = id;
  company = e.company;
  elevator = e.id;
  reference = reference;
  channel = channel;
  reported_by = reporter;
  reported_by_portal_account = account;
  reporter_name = [];
  reporter_phone = [];
  description = description;
  additional_reports = [];
  priority = priority;
  status = FaultStatus.opened;
  technician = none;
  reported_at = now;
  assigned_at = none;
  on_site_at = none;
  resolved_at = none;
  closed_at = none;
  cancelled_at = none;
  cancel_reason = [];
  resolution_notes = [];
  parts_used = [];
  billable = none;
  billable_overridden = false;
  stopped_elevator = stopped;
  is_deleted = false;
}

abbrev is_public : FaultChannel → Bool
is_public FaultChannel.public_qr = true
is_public _ = false

abbrev is_waiting : FaultStatus → Bool
is_waiting FaultStatus.opened = true
is_waiting FaultStatus.assigned = true
is_waiting _ = false

-- The faults that a public report on the lift is merged into.
unfoldable pub is_mergeable : ℕ → ℕ → Fault → Bool
is_mergeable elevator now f =
    f.elevator == elevator
    && is_public f.channel
    && is_waiting f.status
    && leb now (f.reported_at + public_merge_window)
    && not f.is_deleted

-- `.order_by("-reported_at", "-id").first()`
abbrev pub is_newer : Fault → Fault → Bool
is_newer f g = ltb g.reported_at f.reported_at || (f.reported_at == g.reported_at && ltb g.id f.id)

abbrev pub newer_of : Fault → Option Fault → Option Fault
newer_of f none = some f
newer_of f (some g) = if is_newer f g then some f else some g

unfoldable pub newest : (Fault → Bool) → List Fault → Option Fault
newest p [] = none
newest p (f ∷ fs) = let rest = newest p fs in if p f then newer_of f rest else rest

abbrev pub added_report : PublicReport → ℕ → AdditionalReport
added_report r at_time = record {
  reported_at = at_time;
  description = r.description;
  someone_trapped = r.someone_trapped;
  elevator_stopped = r.elevator_stopped;
}

abbrev pub escalates : FaultPriority → Fault → Bool
escalates priority f = ltb (priority_rank priority) (priority_rank f.priority)

-- The merged row.
unfoldable pub merged : PublicReport → FaultPriority → ℕ → Fault → Fault
merged r priority at_time f =
    let nameless = is_empty f.reporter_name && is_empty f.reporter_phone in
    record f {
      additional_reports = f.additional_reports ++ (added_report r at_time ∷ []);
      reporter_name = if nameless then r.reporter_name else f.reporter_name;
      reporter_phone = if nameless then r.reporter_phone else f.reporter_phone;
      priority = if escalates priority f then priority else f.priority;
      stopped_elevator = r.elevator_stopped || f.stopped_elevator;
    }
