-- ===== src/Faults/Lifecycle.antt =====
-- The life of a fault: the moves that the services may make of its row, and what they keep.
use shiftlush_api.Prelude.{
  ℕ, ◌≤◌, ◌≡◌, refl, Bool, true, false, not, ◌&&◌, ◌||◌, Option, none, some, List, [], ◌∷◌, Text,
  is_some, is_none, leb, arith, if◌then◌else◌,
}
use shiftlush_api.Fleet.{FaultPriority, FaultStatus, Fault}
use shiftlush_api.Faults.Rows.{PublicReport, merged}
use shiftlush_api.Faults.Transitions.{
  is_open, is_assigned, is_on_site, is_resolved, is_cancellable, assigned_fault, arrived,
  resolved_fault, closed_fault, cancelled_fault, Changes, edited,
}

abbrev pub is_waiting_status : FaultStatus → Bool
is_waiting_status status = is_open status || is_assigned status

abbrev pub billed : Fault → Bool → Option Bool
billed f derived = if f.billable_overridden then f.billable else some derived

-- What one call at the time `now` may make of a row.
pub data Move (now : ℕ) : Fault → Fault → Type 0 where
  kept : (f : Fault) → Move now f f
  to_technician :
      (t : ℕ) (f : Fault) → is_waiting_status f.status ≡ true → Move now f (assigned_fault t now f)
  to_site : (f : Fault) → is_assigned f.status ≡ true → Move now f (arrived now f)
  to_resolved :
      (notes parts : Text) (derived : Bool) (f : Fault)
      → is_on_site f.status ≡ true
      → Move now f (resolved_fault now notes parts (billed f derived) f)
  to_closed : (f : Fault) → is_resolved f.status ≡ true → Move now f (closed_fault now f)
  to_cancelled :
      (reason : Text) (f : Fault)
      → is_cancellable f.status ≡ true
      → Move now f (cancelled_fault now reason f)
  to_merged :
      (r : PublicReport) (p : FaultPriority) (f : Fault)
      → is_waiting_status f.status ≡ true
      → Move now f (merged r p now f)
  to_edited : (c : Changes) (f : Fault) → Move now f (edited c f)

-- The times are all recorded, in order, from `from` to `until`.
abbrev pub in_order : ℕ → List (Option ℕ) → ℕ → Bool
in_order from [] until = leb from until
in_order from (none ∷ ts) until = false
in_order from (some t ∷ ts) until = leb from t && in_order t ts until

-- The times that a row has, by its status.
abbrev pub has_times : FaultStatus → ℕ → Fault → Bool
has_times FaultStatus.opened now f =
    in_order f.reported_at [] now
    && is_none f.assigned_at
    && is_none f.technician
    && is_none f.on_site_at
    && is_none f.resolved_at
    && is_none f.closed_at
    && is_none f.cancelled_at
has_times FaultStatus.assigned now f =
    in_order f.reported_at (f.assigned_at ∷ []) now
    && is_some f.technician
    && is_none f.on_site_at
    && is_none f.resolved_at
    && is_none f.closed_at
    && is_none f.cancelled_at
has_times FaultStatus.on_site now f =
    in_order f.reported_at (f.assigned_at ∷ f.on_site_at ∷ []) now
    && is_some f.technician
    && is_none f.resolved_at
    && is_none f.closed_at
    && is_none f.cancelled_at
has_times FaultStatus.resolved now f =
    in_order f.reported_at (f.assigned_at ∷ f.on_site_at ∷ f.resolved_at ∷ []) now
    && is_some f.technician
    && is_some f.billable
    && is_none f.closed_at
    && is_none f.cancelled_at
has_times FaultStatus.closed now f =
    in_order f.reported_at (f.assigned_at ∷ f.on_site_at ∷ f.resolved_at ∷ f.closed_at ∷ []) now
    && is_some f.technician
    && is_some f.billable
    && is_none f.cancelled_at
has_times FaultStatus.cancelled now f =
    in_order f.reported_at (f.cancelled_at ∷ []) now && is_none f.resolved_at && is_none f.closed_at

-- ... and an answer on billing where the office has overridden it.
unfoldable pub is_sound : ℕ → Fault → Bool
is_sound now f = has_times f.status now f && (not f.billable_overridden || is_some f.billable)

abbrev pub stage : FaultStatus → ℕ
stage FaultStatus.opened = 0
stage FaultStatus.assigned = 1
stage FaultStatus.on_site = 2
stage FaultStatus.resolved = 3
stage FaultStatus.closed = 4
stage FaultStatus.cancelled = 5

-- `g` is `f` at a later time: the same fault, no further back.
pub record IsLater (f g : Fault) : Type 0 where
  pub same_id : g.id ≡ f.id
  pub same_company : g.company ≡ f.company
  pub same_elevator : g.elevator ≡ f.elevator
  pub same_reference : g.reference ≡ f.reference
  pub same_report : g.reported_at ≡ f.reported_at
  pub onward : stage f.status ≤ stage g.status
  pub final : 4 ≤ stage f.status → stage g.status ≡ stage f.status

-- The move is made before the fault has ended, and takes it on.
moved :
    (f g : Fault)
    → (g.id ≡ f.id)
      × (g.company ≡ f.company)
      × (g.elevator ≡ f.elevator)
      × (g.reference ≡ f.reference)
      × (g.reported_at ≡ f.reported_at)
    → stage f.status ≤ 3
    → stage f.status ≤ stage g.status
    → IsLater f g
moved f g (a, b, c, d, e) h k = record {
  same_id = a;
  same_company = b;
  same_elevator = c;
  same_reference = d;
  same_report = e;
  onward = k;
  final = λ x. omega (arith, x, h);
}

-- The row changes elsewhere than in its status.
staying :
    (f g : Fault)
    → (g.id ≡ f.id)
      × (g.company ≡ f.company)
      × (g.elevator ≡ f.elevator)
      × (g.reference ≡ f.reference)
      × (g.reported_at ≡ f.reported_at)
    → stage g.status ≡ stage f.status
    → IsLater f g
staying f g (a, b, c, d, e) h = record {
  same_id = a;
  same_company = b;
  same_elevator = c;
  same_reference = d;
  same_report = e;
  onward = omega (arith, h);
  final = λ x. h;
}

abbrev same_facts :
    {A B C D E : Type 0} {a : A} {b : B} {c : C} {d : D} {e : E}
    → (a ≡ a) × (b ≡ b) × (c ≡ c) × (d ≡ d) × (e ≡ e)
same_facts = (refl, refl, refl, refl, refl)

pub IsLater-refl : (f : Fault) → IsLater f f
IsLater-refl f = staying f f same_facts refl

pub IsLater-trans : (f g h : Fault) → IsLater f g → IsLater g h → IsLater f h
IsLater-trans f g h p q = record {
  same_id = cc (p.same_id, q.same_id);
  same_company = cc (p.same_company, q.same_company);
  same_elevator = cc (p.same_elevator, q.same_elevator);
  same_reference = cc (p.same_reference, q.same_reference);
  same_report = cc (p.same_report, q.same_report);
  onward = omega (arith, p.onward, q.onward);
  final = λ x. let e = p.final x in omega (arith, e, q.final (omega (arith, x, e)));
}

waiting_stage : (s : FaultStatus) → is_waiting_status s ≡ true → stage s ≤ 1
waiting_stage s h = ground arith

assigned_stage : (s : FaultStatus) → is_assigned s ≡ true → stage s ≤ 1
assigned_stage s h = ground arith

on_site_stage : (s : FaultStatus) → is_on_site s ≡ true → stage s ≤ 2
on_site_stage s h = ground arith

resolved_stage : (s : FaultStatus) → is_resolved s ≡ true → stage s ≤ 3
resolved_stage s h = ground arith

cancellable_stage : (s : FaultStatus) → is_cancellable s ≡ true → stage s ≤ 2
cancellable_stage s h = ground arith

pub Move-IsLater : {now : ℕ} {f g : Fault} → Move now f g → IsLater f g
unfolding merged edited
Move-IsLater (Move.kept f) = IsLater-refl f
Move-IsLater (Move.to_technician t f h) =
    let k = waiting_stage f.status h in moved f _ same_facts (omega (arith, k)) k
Move-IsLater (Move.to_site f h) =
    let k = assigned_stage f.status h in moved f _ same_facts (omega (arith, k)) (omega (arith, k))
Move-IsLater (Move.to_resolved n p d f h) =
    let k = on_site_stage f.status h in moved f _ same_facts (omega (arith, k)) (omega (arith, k))
Move-IsLater (Move.to_closed f h) =
    let k = resolved_stage f.status h in moved f _ same_facts k (omega (arith, k))
Move-IsLater (Move.to_cancelled r f h) =
    let k = cancellable_stage f.status h in
    moved f _ same_facts (omega (arith, k)) (omega (arith, k))
Move-IsLater (Move.to_merged r p f h) = staying f _ same_facts refl
Move-IsLater (Move.to_edited c f) = staying f _ same_facts refl

-- A move keeps a sound row sound.
pub Move-is_sound :
    {now : ℕ} {f g : Fault} → Move now f g → is_sound now f ≡ true → is_sound now g ≡ true
unfolding is_sound merged edited
Move-is_sound (Move.kept f) s = s
Move-is_sound (Move.to_technician t f h) s = ground arith
Move-is_sound (Move.to_site f h) s = ground arith
Move-is_sound (Move.to_resolved n p d f h) s = ground arith
Move-is_sound (Move.to_closed f h) s = ground arith
Move-is_sound (Move.to_cancelled r f h) s = ground arith
Move-is_sound (Move.to_merged r p f h) s = ground arith
Move-is_sound (Move.to_edited c f) s = ground arith
