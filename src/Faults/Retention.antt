-- ===== src/Faults/Retention.antt =====
-- apps/faults/services.py: reporters' names and phones are blanked 90 days after the fault ended.
use shiftlush_api.Prelude.{
  ℕ, suc, ◌+◌, ◌*◌, ◌≡◌, Bool, true, false, not, ◌&&◌, ◌||◌, Option, none, some, [], is_empty, ltb,
  update, select, length, All-updated, select-none, update-none, arith, ◌⊎◌, inl, inr, refl, ◌<◌,
  ◌∙◌, ap, ltb→lt, Bool-cases, Text, List, ◌∷◌, Extends,
}
use shiftlush_api.Action.{Action, modify, gets, pure, ok, ◌>>=◌, ◌>>◌}
use shiftlush_api.Fleet.{FaultChannel, FaultStatus, Fault, Fleet}
use shiftlush_api.Faults.Transitions.{is_closed, is_cancelled}

-- 90 days
abbrev pub reporter_data_retention : ℕ
reporter_data_retention = 90 * (24 * 3600)

-- `ended_at < now - retention`; a null is before nothing
abbrev pub ended_before : ℕ → Option ℕ → Bool
ended_before now none = false
ended_before now (some t) = ltb (t + reporter_data_retention) now

abbrev pub is_finished : ℕ → Fault → Bool
is_finished now f =
    (is_closed f.status && ended_before now f.closed_at)
    || (is_cancelled f.status && ended_before now f.cancelled_at)

abbrev pub holds_reporter : Fault → Bool
holds_reporter f = not (is_empty f.reporter_name) || not (is_empty f.reporter_phone)

abbrev pub from_public : FaultChannel → Bool
from_public FaultChannel.public_qr = true
from_public _ = false

unfoldable pub is_forgettable : ℕ → Fault → Bool
is_forgettable now f =
    is_finished now f && holds_reporter f && from_public f.channel && not f.is_deleted

abbrev pub blanked : Fault → Fault
blanked f = record f { reporter_name = []; reporter_phone = [] }

unfoldable pub forget_public_reporters : ℕ → Action Fleet ℕ
forget_public_reporters now = do
  count ← gets (λ s. length (select (is_forgettable now) s.faults))
  modify (λ s. record s { faults = update (is_forgettable now) blanked s.faults })
  pure count

-- A moment that is more than 90 days past.
abbrev pub IsLongPast : ℕ → Option ℕ → Type 0
IsLongPast now at = (t : ℕ) × (at ≡ some t) × (t + 90 * 86400 < now)

-- A public report that was closed or cancelled more than 90 days ago, and is not deleted.
abbrev pub IsOver : ℕ → Fault → Type 0
IsOver now f =
    (f.channel ≡ FaultChannel.public_qr)
    × (f.is_deleted ≡ false)
    × (((f.status ≡ FaultStatus.closed) × IsLongPast now f.closed_at)
        ⊎ ((f.status ≡ FaultStatus.cancelled) × IsLongPast now f.cancelled_at))

abbrev pub IsForgotten : ℕ → Fault → Fault → Type 0
IsForgotten now f g = (IsOver now f → g ≡ blanked f) × (¬ IsOver now f → g ≡ f)

empty_text : (t : Text) → is_empty t ≡ true → t ≡ []
empty_text [] e = refl
empty_text (c ∷ t) e = cc

long_past : (now : ℕ) (at : Option ℕ) → ended_before now at ≡ true → IsLongPast now at
long_past now none e = cc
long_past now (some t) e = (t, refl, ltb→lt _ now e)

past_ended : (now : ℕ) (at : Option ℕ) → IsLongPast now at → ended_before now at ≡ true
past_ended now at (t, e, h) = rw (e) (ground arith)

closed_status : (s : FaultStatus) → is_closed s ≡ true → s ≡ FaultStatus.closed
closed_status FaultStatus.closed e = refl
closed_status FaultStatus.opened e = cc
closed_status FaultStatus.assigned e = cc
closed_status FaultStatus.on_site e = cc
closed_status FaultStatus.resolved e = cc
closed_status FaultStatus.cancelled e = cc

cancelled_status : (s : FaultStatus) → is_cancelled s ≡ true → s ≡ FaultStatus.cancelled
cancelled_status FaultStatus.cancelled e = refl
cancelled_status FaultStatus.opened e = cc
cancelled_status FaultStatus.assigned e = cc
cancelled_status FaultStatus.on_site e = cc
cancelled_status FaultStatus.resolved e = cc
cancelled_status FaultStatus.closed e = cc

public_channel : (c : FaultChannel) → from_public c ≡ true → c ≡ FaultChannel.public_qr
public_channel FaultChannel.public_qr e = refl
public_channel FaultChannel.staff e = cc
public_channel FaultChannel.customer_portal e = cc

is_forgettable-IsOver : (now : ℕ) (f : Fault) → is_forgettable now f ≡ true → IsOver now f
unfolding is_forgettable
is_forgettable-IsOver now f e =
    let public : from_public f.channel ≡ true = ground arith in
    let finished : is_finished now f ≡ true = ground arith in
    (
      public_channel f.channel public,
      ground arith,
      elim (Bool-cases (is_closed f.status && ended_before now f.closed_at)) [
        | inl h ↦
            inl (closed_status f.status (ground arith), long_past now f.closed_at (ground arith))
        | inr h ↦
            let other : (is_cancelled f.status && ended_before now f.cancelled_at) ≡ true =
              ground arith in
            inr (
              cancelled_status f.status (ground arith),
              long_past now f.cancelled_at (ground arith),
            )
      ],
    )

-- A report that is over, and that the filter passes by, has no name and no phone to blank.
blank_already : (f : Fault) → holds_reporter f ≡ false → f ≡ blanked f
blank_already f e =
    let name : is_empty f.reporter_name ≡ true = ground arith in
    let phone : is_empty f.reporter_phone ≡ true = ground arith in
    ap (λ n. record f { reporter_name = n }) (empty_text f.reporter_name name)
    ∙ ap (λ n. record f { reporter_name = []; reporter_phone = n })
        (empty_text f.reporter_phone phone)

IsOver-finished : (now : ℕ) (f : Fault) → IsOver now f → is_finished now f ≡ true
IsOver-finished now f (_, _, inl (status, past)) =
    rw (status) (rw (past_ended now f.closed_at past) refl)
IsOver-finished now f (_, _, inr (status, past)) = rw (status) (past_ended now f.cancelled_at past)

passed_by : (now : ℕ) (f : Fault) → is_forgettable now f ≡ false → IsOver now f → f ≡ blanked f
unfolding is_forgettable
passed_by now f e over =
    let finished : is_finished now f ≡ true = IsOver-finished now f over in
    let public : from_public f.channel ≡ true = rw (over.0) refl in
    let live : f.is_deleted ≡ false = over.1 in blank_already f (ground arith)

update-IsForgotten :
    (now : ℕ) (fs : List Fault)
    → Extends (IsForgotten now) fs (update (is_forgettable now) blanked fs)
unfolding update
update-IsForgotten now [] = tt
update-IsForgotten now (f ∷ fs) = elim (Bool-cases (is_forgettable now f)) [
  | inl e ↦ rw (e) (
    (λ _. refl, λ running. absurd (running (is_forgettable-IsOver now f e))),
    update-IsForgotten now fs,
  )
  | inr e ↦ rw (e) ((passed_by now f e, λ _. refl), update-IsForgotten now fs)
]

length-update :
    (p : Fault → Bool) (g : Fault → Fault) (fs : List Fault) → length (update p g fs) ≡ length fs
unfolding update
length-update p g [] = refl
length-update p g (f ∷ fs) = ap suc (length-update p g fs)

blanked_kept : (now : ℕ) (f : Fault) → is_forgettable now (blanked f) ≡ false
unfolding is_forgettable
blanked_kept now f = ground arith

-- Row by row, a public report that was closed or cancelled more than 90 days before, and is not
-- deleted, loses the name and phone of its reporter and nothing else; every other row stays as it
-- is, and none comes or goes. A second run at the same time finds no row.
pub forget-IsForgotten :
    (now : ℕ) (s : Fleet)
    → let s' = (forget_public_reporters now s).1 in
      Extends (IsForgotten now) s.faults s'.faults
      × (length s'.faults ≡ length s.faults)
      × (forget_public_reporters now s' ≡ (ok 0, s'))
unfolding forget_public_reporters ◌>>=◌
forget-IsForgotten now s =
    let none_left = All-updated (is_forgettable now) blanked s.faults (blanked_kept now) in
    (
      update-IsForgotten now s.faults,
      length-update (is_forgettable now) blanked s.faults,
      rw (select-none _ _ none_left, update-none _ blanked _ none_left),
    )
