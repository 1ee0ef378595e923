-- ===== src/Faults/Calls/Steps.antt =====
-- The calls on faults as moves of rows.
use shiftlush_api.Prelude.{
  ℕ, ◌≡◌, refl, Bool, true, false, Option, none, some, List, [], ◌∷◌, Text, put, In, arith, ap,
  Bool-cases, inl, inr,
}
use shiftlush_api.Action.{Action}
use shiftlush_api.Action.Outcome.{
  Ends, Ends-pure, Ends-weaken, Ends-atomic, Ends-bind, Ends-gets, Ends-guard, Ends-modify,
  Ends-read,
}
use shiftlush_api.Action.Keeps.{Ends-Keeps}
use shiftlush_api.Fleet.{Elevator, FaultPriority, FaultChannel, Fault, Fleet}
use shiftlush_api.Faults.Rows.{
  PublicReport, merged, newest, newer_of, is_newer, public_priority, is_mergeable, new_fault,
}
use shiftlush_api.Faults.Reports.{
  report_by_staff, report_public, report_by_portal, save_fault, has_fault_id, merge,
  merged_or_first, named, reference_attempts, given_to,
}
use shiftlush_api.Faults.Transitions.{
  assign, reassign, arrive, resolve, close, cancel, edit, Changes,
}
use shiftlush_api.Faults.Lifecycle.{Move, is_sound, is_waiting_status}
use shiftlush_api.Faults.Calls.Writes.{
  stop_found-Keeps, SameFaults-refl, Wrote, nothing, changed, rest_Ends, locked-Reads, insert-Wrote,
  sides,
}

-- What a call comes to, before its transaction takes a refusal back.
abbrev Writes : {A : Type 0} → Action Fleet A → Fleet → Type 0
Writes m s = Ends (λ _. Unit {0}) (λ _ t. Wrote s t) m s

abbrev Found : (Fault → Bool) → List Fault → Option Fault → Type 0
Found p fs none = Unit
Found p fs (some f) = In f fs × (p f ≡ true)

Found-newer_of :
    (p : Fault → Bool) (fs : List Fault) (f : Fault) (o : Option Fault)
    → In f fs × (p f ≡ true)
    → Found p fs o
    → Found p fs (newer_of f o)
Found-newer_of p fs f none h k = h
Found-newer_of p fs f (some g) h k = elim (Bool-cases (is_newer f g)) [
  | inl e ↦ rw e h
  | inr e ↦ rw e k
]

Found-grown :
    (p : Fault → Bool) (fs : List Fault) (f : Fault) (o : Option Fault)
    → Found p fs o
    → Found p (f ∷ fs) o
Found-grown p fs f none h = tt
Found-grown p fs f (some g) h = (inr h.0, h.1)

newest-Found : (p : Fault → Bool) (fs : List Fault) → Found p fs (newest p fs)
unfolding newest
newest-Found p [] = tt
newest-Found p (f ∷ fs) =
    let later = Found-grown p fs f (newest p fs) (newest-Found p fs) in
    elim (Bool-cases (p f)) [
      | inl e ↦ rw e (Found-newer_of p (f ∷ fs) f (newest p fs) (inl refl, e) later)
      | inr e ↦ rw e later
    ]

mergeable_waiting :
    (e now : ℕ) (f : Fault) → is_mergeable e now f ≡ true → is_waiting_status f.status ≡ true
unfolding is_mergeable
mergeable_waiting e now f h = ground arith

merge-Writes :
    (f : Fault) (r : PublicReport) (p : FaultPriority) (s : Fleet)
    → In f s.faults
    → is_waiting_status f.status ≡ true
    → Writes (merge f r p s.now) s
unfolding merge save_fault merged
merge-Writes f r p s i w = Ends-gets _ _ _ (
    Ends-bind _ _ s
      (Ends-weaken _ s (λ _ _. tt) (λ _ _ h. h)
        (Ends-Keeps _ s (stop_found-Keeps _ _) (SameFaults-refl s)))
      λ _ t h. Ends-modify _ _ _ (
        rest_Ends _ _
          (changed f (merged r p s.now f) i (unfold merged in Move.to_merged r p f w)
            (ap (put (has_fault_id f.id) (merged r p s.now f)) h.faults) h.next_id h.now)
          (search sides)))

named_sound :
    (e : Elevator) (r : PublicReport) (now : ℕ) (t : Text) (id : ℕ)
    → is_sound now (
        named r (
          new_fault e FaultChannel.public_qr none none r.description
            (public_priority r)
            now
            r.elevator_stopped
            t
            id))
      ≡ true
unfolding is_sound
named_sound e r now t id = ground arith

assigned_sound :
    (e : Elevator) (c : FaultChannel) (r a : Option ℕ) (d : Text) (p : FaultPriority) (now : ℕ)
    (b : Bool) (t : Text) (id : ℕ) (w : Option ℕ)
    → is_sound now (given_to w (new_fault e c r a d p now b t id)) ≡ true
unfolding is_sound
assigned_sound e c r a d p now b t id none = ground arith
assigned_sound e c r a d p now b t id (some w) = ground arith

given_id : (w : Option ℕ) (f : Fault) → (given_to w f).id ≡ f.id
given_id none f = refl
given_id (some w) f = refl

pub report_by_staff-Writes :
    (nr : ℕ → Text) (e : Elevator) (d : Text) (p : FaultPriority) (r : ℕ) (w : Option ℕ)
    (b t : Bool) (s : Fleet)
    → Ends (λ t. t ≡ s) (λ _ t. Wrote s t) (report_by_staff nr e d p r w b t) s
unfolding report_by_staff
report_by_staff-Writes nr e d p r w b t s = Ends-atomic {X = λ _. Unit {0}} _ s refl (
    Ends-gets _ _ _ (
      Ends-bind _ _ s
        (insert-Wrote nr reference_attempts e.company _ s (λ x. given_id w _)
          (λ x. assigned_sound e _ _ _ d _ s.now b x s.next_id w))
        λ f u h. rest_Ends _ u h (search sides)))

pub report_by_portal-Writes :
    (nr : ℕ → Text) (account : ℕ) (e : Elevator) (r : PublicReport) (s : Fleet)
    → Ends (λ t. t ≡ s) (λ _ t. Wrote s t) (report_by_portal nr account e r) s
unfolding report_by_portal
report_by_portal-Writes nr account e r s = Ends-atomic {X = λ _. Unit {0}} _ s refl (
    Ends-gets _ _ _ (
      Ends-bind _ _ s
        (insert-Wrote nr reference_attempts e.company _ s (λ x. refl)
          (λ x. assigned_sound e _ _ _ _ _ s.now _ x s.next_id none))
        λ f u h. rest_Ends _ u h (search sides)))

merged_or_first-Writes :
    (nr : ℕ → Text) (e : Elevator) (r : PublicReport) (o : Option Fault) (s : Fleet)
    → Found (is_mergeable e.id s.now) s.faults o
    → Writes (merged_or_first nr e r s.now o) s
merged_or_first-Writes nr e r none s h =
    Ends-bind _ _ s
      (insert-Wrote nr reference_attempts e.company _ s (λ x. refl)
        (λ x. named_sound e r s.now x s.next_id))
      λ f u h. rest_Ends _ u h (search sides)
merged_or_first-Writes nr e r (some f) s h =
    merge-Writes f r (public_priority r) s h.0 (mergeable_waiting e.id s.now f h.1)

pub report_public-Writes :
    (nr : ℕ → Text) (e : Elevator) (r : PublicReport) (s : Fleet)
    → Ends (λ t. t ≡ s) (λ _ t. Wrote s t) (report_public nr e r) s
unfolding report_public
report_public-Writes nr e r s = Ends-atomic {X = λ _. Unit {0}} _ s refl (
    Ends-gets _ _ _ (
      Ends-gets _ _ _
        (merged_or_first-Writes nr e r _ s (newest-Found (is_mergeable e.id s.now) s.faults))))

pub arrive-Writes : (k : ℕ) (s : Fleet) → Ends (λ t. t ≡ s) (λ _ t. Wrote s t) (arrive k) s
unfolding arrive save_fault
arrive-Writes k s = Ends-atomic {X = λ _. Unit {0}} _ s refl (
    Ends-read _ _ _ (locked-Reads k s) tt λ f i. Ends-guard _ _ _ _ tt λ e. Ends-gets _ _ _ (
      Ends-modify _ _ _
        (Ends-pure _ _ (changed f _ i (Move.to_site f (ground arith)) refl refl refl))))

pub close-Writes : (k : ℕ) (s : Fleet) → Ends (λ t. t ≡ s) (λ _ t. Wrote s t) (close k) s
unfolding close save_fault
close-Writes k s = Ends-atomic {X = λ _. Unit {0}} _ s refl (
    Ends-read _ _ _ (locked-Reads k s) tt λ f i. Ends-guard _ _ _ _ tt λ e. Ends-gets _ _ _ (
      Ends-modify _ _ _
        (Ends-pure _ _ (changed f _ i (Move.to_closed f (ground arith)) refl refl refl))))

pub cancel-Writes :
    (k : ℕ) (r : Text) (s : Fleet) → Ends (λ t. t ≡ s) (λ _ t. Wrote s t) (cancel k r) s
unfolding cancel save_fault
cancel-Writes k r s = Ends-atomic {X = λ _. Unit {0}} _ s refl (
    Ends-read _ _ _ (locked-Reads k s) tt λ f i. Ends-guard _ _ _ _ tt λ e. Ends-gets _ _ _ (
      Ends-modify _ _ _
        (Ends-pure _ _ (changed f _ i (Move.to_cancelled r f (ground arith)) refl refl refl))))

pub resolve-Writes :
    (day : ℕ → ℕ) (k : ℕ) (n p : Text) (b : Bool) (s : Fleet)
    → Ends (λ t. t ≡ s) (λ _ t. Wrote s t) (resolve day k n p b) s
unfolding resolve save_fault
resolve-Writes day k n p b s = Ends-atomic {X = λ _. Unit {0}} _ s refl (
    Ends-read _ _ _ (locked-Reads k s) tt λ f i. Ends-guard _ _ _ _ tt λ e. Ends-gets _ _ _ (
      Ends-gets _ _ _ (
        Ends-modify _ _ _ (
          rest_Ends _ _ (changed f _ i (Move.to_resolved n p _ f (ground arith)) refl refl refl)
            (search sides)))))

pub edit-Writes :
    (k : ℕ) (c : Changes) (s : Fleet) → Ends (λ t. t ≡ s) (λ _ t. Wrote s t) (edit k c) s
unfolding edit save_fault
edit-Writes k c s = Ends-atomic {X = λ _. Unit {0}} _ s refl (
    Ends-read _ _ _ (locked-Reads k s) tt λ f i.
      Ends-modify _ _ _
        (rest_Ends _ _ (changed f _ i (Move.to_edited c f) refl refl refl) (search sides)))

reassign-Writes :
    (b : Bool) (f : Fault) (t : ℕ) (s : Fleet)
    → In f s.faults
    → is_waiting_status f.status ≡ true
    → Writes (reassign b f t) s
unfolding save_fault
reassign-Writes true f t s i w = Ends-pure _ _ (nothing (SameFaults-refl s))
reassign-Writes false f t s i w = Ends-gets _ _ _ (
    Ends-modify _ _ _
      (rest_Ends _ _ (changed f _ i (Move.to_technician t f w) refl refl refl) (search sides)))

pub assign-Writes : (k t : ℕ) (s : Fleet) → Ends (λ u. u ≡ s) (λ _ u. Wrote s u) (assign k t) s
unfolding assign
assign-Writes k t s = Ends-atomic {X = λ _. Unit {0}} _ s refl (
    Ends-read _ _ _ (locked-Reads k s) tt
      λ f i. Ends-guard _ _ _ _ tt λ e. reassign-Writes _ f t s i (ground arith))
