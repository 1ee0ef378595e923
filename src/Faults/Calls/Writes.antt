-- ===== src/Faults/Calls/Writes.antt =====
-- What each call writes to the table of faults.
use shiftlush_api.Prelude.{
  ℕ, zero, suc, ◌+◌, ◌≡◌, refl, Bool, true, false, not, ◌&&◌, ◌||◌, Option, none, some, List, [],
  ◌∷◌, ◌++◌, Text, find, find-In, put, In, arith, ap, sym, ◌∙◌, Bool-cases, Option-cases, inl, inr,
  any, if◌then◌else◌,
}
use mathlib.Core.Path.{subst}
use shiftlush_api.Errors.{Error, does_not_exist}
use shiftlush_api.Action.{Action, modify, or_raise, ◌>>=◌}
use shiftlush_api.Action.Outcome.{
  Ends, ok-injective, Ends-pure, Ends-raise, Ends-if, Ends-weaken, Ends-gets, Ends-modify, Reads,
}
use shiftlush_api.Action.Keeps.{Keeps, Ends-Keeps, Keeps-modify, keeps_rules}
use shiftlush_api.Fleet.{Elevator, ElevatorStatus, NoticeKind, Fault, Fleet}
use shiftlush_api.Faults.Notices.{notify, announce_report, announce_assignment, announce_resolution}
use shiftlush_api.Faults.Reports.{
  has_fault_id, uses_reference, create_fault, set_elevator_status, stop, stop_if, stop_found,
  insert, announce_if, announce_technician,
}
use shiftlush_api.Faults.Transitions.{restore_if, is_live_fault, locked}
use shiftlush_api.Faults.Lifecycle.{Move, is_sound}

-- The table, the next key and the clock are those of `s`.
pub record SameFaults (s t : Fleet) : Type 0 where
  pub faults : t.faults ≡ s.faults
  pub next_id : t.next_id ≡ s.next_id
  pub now : t.now ≡ s.now

pub SameFaults-refl : (s : Fleet) → SameFaults s s
SameFaults-refl s = record { faults = refl; next_id = refl; now = refl }

module _ {s : Fleet} where
  pub Keeps-beside :
      (g : Fleet → Fleet)
      → ((t : Fleet) → (g t).faults ≡ t.faults)
      → ((t : Fleet) → (g t).next_id ≡ t.next_id)
      → ((t : Fleet) → (g t).now ≡ t.now)
      → Keeps (SameFaults s) (modify g)
  Keeps-beside g f n c = Keeps-modify g λ t h. record {
    faults = cc (f t, h.faults);
    next_id = cc (n t, h.next_id);
    now = cc (c t, h.now);
  }

pub ruleset beside = (keeps_rules, Keeps-beside, refl)

module _ {s : Fleet} where
  notify-Keeps :
      (k : NoticeKind) (f : ℕ) (people : List ℕ) → Keeps (SameFaults s) (notify k f people)
  unfolding notify
  notify-Keeps k f people = search beside

  pub announce_report-Keeps : (f : Fault) → Keeps (SameFaults s) (announce_report f)
  unfolding announce_report
  announce_report-Keeps f = search (beside, notify-Keeps)

  pub announce_assignment-Keeps :
      (f : Fault) (t : ℕ) → Keeps (SameFaults s) (announce_assignment f t)
  unfolding announce_assignment
  announce_assignment-Keeps f t = search (beside, notify-Keeps)

  pub announce_resolution-Keeps : (f : Fault) → Keeps (SameFaults s) (announce_resolution f)
  unfolding announce_resolution
  announce_resolution-Keeps f = search (beside, notify-Keeps)

  set_elevator_status-Keeps :
      (k : ℕ) (e : ElevatorStatus) → Keeps (SameFaults s) (set_elevator_status k e)
  unfolding set_elevator_status
  set_elevator_status-Keeps k e = search beside

  pub stop_if-Keeps : (b : Bool) (e : Elevator) → Keeps (SameFaults s) (stop_if b e)
  unfolding stop
  stop_if-Keeps true e = search (beside, set_elevator_status-Keeps)
  stop_if-Keeps false e = search beside

  pub stop_found-Keeps : (b : Bool) (e : Option Elevator) → Keeps (SameFaults s) (stop_found b e)
  stop_found-Keeps b none = search beside
  stop_found-Keeps b (some e) = stop_if-Keeps b e

  pub announce_if-Keeps : (b : Bool) (f : Fault) → Keeps (SameFaults s) (announce_if b f)
  announce_if-Keeps true f = announce_report-Keeps f
  announce_if-Keeps false f = search beside

  pub announce_technician-Keeps :
      (f : Fault) (t : Option ℕ) → Keeps (SameFaults s) (announce_technician f t)
  announce_technician-Keeps f none = search beside
  announce_technician-Keeps f (some t) = announce_assignment-Keeps f t

  pub restore_if-Keeps : (b : Bool) (k : ℕ) → Keeps (SameFaults s) (restore_if b k)
  restore_if-Keeps true k = set_elevator_status-Keeps k ElevatorStatus.active
  restore_if-Keeps false k = search beside

-- What a call that returns has made of the table: nothing, a new sound row under the next key, or
-- a move of one row.
pub data Wrote (s t : Fleet) : Type 0 where
  nothing : SameFaults s t → Wrote s t
  added :
      (g : Fault)
      → g.id ≡ s.next_id
      → is_sound s.now g ≡ true
      → t.faults ≡ s.faults ++ (g ∷ [])
      → t.next_id ≡ s.next_id + 1
      → t.now ≡ s.now
      → Wrote s t
  changed :
      (f g : Fault)
      → In f s.faults
      → Move s.now f g
      → t.faults ≡ put (has_fault_id f.id) g s.faults
      → t.next_id ≡ s.next_id
      → t.now ≡ s.now
      → Wrote s t

pub Wrote-beside : (s t u : Fleet) → Wrote s t → SameFaults t u → Wrote s u
Wrote-beside s t u (nothing h) k =
    nothing (record {
      faults = k.faults ∙ h.faults;
      next_id = k.next_id ∙ h.next_id;
      now = k.now ∙ h.now;
    })
Wrote-beside s t u (added g i o f n c) k = added g i o (k.faults ∙ f) (k.next_id ∙ n) (k.now ∙ c)
Wrote-beside s t u (changed f g i m w n c) k =
    changed f g i m (k.faults ∙ w) (k.next_id ∙ n) (k.now ∙ c)

-- A draw of a reference touches nothing else.
Wrote-drawn :
    (s s' t : Fleet)
    → s'.faults ≡ s.faults
    → s'.next_id ≡ s.next_id
    → s'.now ≡ s.now
    → Wrote s' t
    → Wrote s t
Wrote-drawn s s' t f n c (nothing h) =
    nothing (record { faults = h.faults ∙ f; next_id = h.next_id ∙ n; now = h.now ∙ c })
Wrote-drawn s s' t f n c (added g i o w m d) =
    added g (i ∙ n) (subst (λ k. is_sound k g ≡ true) c o) (w ∙ ap (λ fs. fs ++ (g ∷ [])) f)
      (m ∙ ap (λ k. k + 1) n) (d ∙ c)
Wrote-drawn s s' t f n c (changed h g i v w m d) =
    changed h g (subst (In h) f i) (subst (λ k. Move k h g) c v)
      (w ∙ ap (put (has_fault_id h.id) g) f) (m ∙ n) (d ∙ c)

-- The rest of a call, after its write to the table.
pub rest_Ends :
    {A : Type 0} {s : Fleet} (m : Action Fleet A) (t : Fleet)
    → Wrote s t
    → Keeps (SameFaults t) m
    → Ends (λ _. Unit {0}) (λ _ u. Wrote s u) m t
rest_Ends {s = s} m t w k =
    Ends-weaken m t (λ _ _. tt) (λ _ u h. Wrote-beside s t u w h)
      (Ends-Keeps m t k (SameFaults-refl t))

found-Reads :
    (o : Option Fault) (e : Error) (s : Fleet)
    → ((f : Fault) → o ≡ some f → In f s.faults)
    → Reads (λ f. In f s.faults) (or_raise o e) s
unfolding or_raise
found-Reads none e s h = record { same_state = refl; value = λ f x. absurd (cc x) }
found-Reads (some f) e s h = record {
  same_state = refl;
  value = λ g x. subst (λ y. In y s.faults) (ok-injective x) (h f refl);
}

pub locked-Reads : (k : ℕ) (s : Fleet) → Reads (λ f. In f s.faults) (locked k) s
unfolding locked ◌>>=◌
locked-Reads k s =
    let r =
      found-Reads (find (is_live_fault k) s.faults) (does_not_exist "fault") s
        (λ f e. (find-In (is_live_fault k) s.faults f e).0) in
    record { same_state = r.same_state; value = r.value }

-- What is told to people and what is done to lifts, beside the table of faults.
pub ruleset sides = (
  beside, announce_report-Keeps, announce_assignment-Keeps, announce_resolution-Keeps,
  stop_if-Keeps, stop_found-Keeps, announce_if-Keeps, announce_technician-Keeps, restore_if-Keeps,
)

create_fault-Wrote :
    (row : ℕ → Fault) (s t : Fleet)
    → SameFaults s t
    → (row t.next_id).id ≡ s.next_id
    → is_sound s.now (row t.next_id) ≡ true
    → Ends (λ _. Unit {0}) (λ _ u. Wrote s u) (create_fault row) t
unfolding create_fault
create_fault-Wrote row s t h i o = Ends-gets _ _ _ (
    Ends-modify _ _ _ (
      Ends-pure _ _ (
        added (row t.next_id) i o (ap (λ fs. fs ++ (row t.next_id ∷ [])) h.faults)
          (ap (λ k. k + 1) h.next_id) h.now)))

pub insert-Wrote :
    (new_reference : ℕ → Text) (attempts company : ℕ) (row : Text → ℕ → Fault) (s : Fleet)
    → ((r : Text) → (row r s.next_id).id ≡ s.next_id)
    → ((r : Text) → is_sound s.now (row r s.next_id) ≡ true)
    → Ends (λ _. Unit {0}) (λ _ t. Wrote s t) (insert new_reference attempts company row) s
unfolding insert
insert-Wrote nr zero company row s i o = Ends-raise _ s tt
insert-Wrote nr (suc attempts) company row s i o =
    let drawn : Fleet = record s { drawn = s.drawn + 1 } in
    let r = nr s.drawn in
    Ends-gets _ _ _ (
      Ends-modify _ _ _ (
        Ends-gets _ _ _ (
          Ends-if (any (uses_reference company r) s.faults) (insert nr attempts company row)
            (create_fault (row r)) drawn
            (λ _.
              Ends-weaken _ _ (λ _ _. tt) (λ _ t w. Wrote-drawn s drawn t refl refl refl w)
                (insert-Wrote nr attempts company row drawn i o))
            (λ _.
              create_fault-Wrote (row r) s drawn
                (record { faults = refl; next_id = refl; now = refl }) (i r) (o r)))))
