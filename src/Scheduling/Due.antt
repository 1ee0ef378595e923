-- ===== src/Scheduling/Due.antt =====
-- core/scheduling.py: the jobs that are due at a tick.
use shiftlush_api.Prelude.{
  ℕ, ◌≡◌, refl, sym, inl, inr, Bool, true, false, not, Bool-cases, List, [], ◌∷◌, ◌++◌, Text,
  text_eq_refl, any_appended, any_last, any_updated, update, All, arith,
}
use mathlib.Core.Path.{subst}
use shiftlush_api.Action.{Result, ok, err, pure, raise, raise_if, gets, atomic, modify, ◌>>=◌}
use shiftlush_api.Action.Outcome.{
  Ends, Leaves, Ends-pure, Ends-gets, Ends-passed, Ends-modify, Ends-bind, Ends-weaken,
}
use shiftlush_api.Action.Never.{Never, returned, none_if_refused-Leaves, none_if_refused-Keeps}
use shiftlush_api.Action.Keeps.{
  Keeps, Keeps-bind, Keeps-if, Keeps-gets, Keeps-pure, Keeps-modify, Keeps-atomic, Ends-also,
  keeps_rules,
}
use shiftlush_api.Scheduling.{
  ScheduledRun, Scheduler, DailySchedule, has_run, already_ran, with_task, has_run_id, claim_row,
  handed, enqueue, claim, try_claim, is_due, start_unless, start_if_due, enqueue_each, enqueue_due,
}

-- The job has a run for the day.
abbrev pub HasRun : Text → ℕ → Scheduler → Type 0
HasRun job period s = already_ran job period s ≡ true

module _ (accept : Text → Scheduler → Result ℕ) (job : Text) (period : ℕ) where
  -- A run that is there stays.
  claimed-Keeps :
      (row : ScheduledRun) (id : ℕ)
      → Keeps
          (HasRun job period)
          (modify (λ s. record s { runs = s.runs ++ (row ∷ []); next_id = id }))
  claimed-Keeps row id = Keeps-modify _ λ s h. any_appended _ s.runs _ h

  tasked-Keeps :
      (k task : ℕ)
      → Keeps
          (HasRun job period)
          (modify (λ s. record s { runs = update (has_run_id k) (with_task task) s.runs }))
  tasked-Keeps k task = Keeps-modify _ λ s h. any_updated _ _ _ s.runs (λ r e. e) h

  enqueue-Keeps : (other : Text) (day : ℕ) → Keeps (HasRun job period) (enqueue accept other day)
  unfolding enqueue
  enqueue-Keeps other day = record { after = λ s h. kept s h (accept other s) }
    where
      kept :
          (s : Scheduler)
          → HasRun job period s
          → (r : Result ℕ) → HasRun job period (handed accept other day s r).1
      kept s h (ok task) = h
      kept s h (err e) = h

  claim-Keeps : (other : Text) (day : ℕ) → Keeps (HasRun job period) (claim accept other day)
  unfolding claim
  claim-Keeps other day = search (keeps_rules, claimed-Keeps, tasked-Keeps, enqueue-Keeps) depth 14

  try_claim-Keeps :
      (other : Text) (day : ℕ) → Keeps (HasRun job period) (try_claim accept other day)
  unfolding try_claim
  try_claim-Keeps other day = record {
    after = λ s h.
        none_if_refused-Keeps (HasRun job period) (atomic (claim accept other day) s)
          ((Keeps-atomic _ (claim-Keeps other day)).after s h);
  }

  module _ (local_day local_time : ℕ → ℕ) where
    start_unless-Keeps :
        (ran : Bool) (now : ℕ) (schedule : DailySchedule) (started : List Text)
        → Keeps
            (HasRun job period)
            (start_unless accept local_day local_time ran now schedule started)
    start_unless-Keeps true now schedule started = search keeps_rules
    start_unless-Keeps false now schedule started = search (keeps_rules, try_claim-Keeps)

    enqueue_each-Keeps :
        (now : ℕ) (schedules : List DailySchedule) (started : List Text)
        → Keeps (HasRun job period) (enqueue_each accept local_day local_time now schedules started)
    unfolding enqueue_each start_if_due
    enqueue_each-Keeps now [] started = search keeps_rules
    enqueue_each-Keeps now (schedule ∷ schedules) started =
        Keeps-bind _ _
          (Keeps-if (not (is_due local_time schedule now)) (pure started) _ (Keeps-pure started)
            (Keeps-bind _ _ (Keeps-gets _) λ ran. start_unless-Keeps ran now schedule started))
          λ next. enqueue_each-Keeps now schedules next

-- The backend takes every task.
module _ (accept : Text → Scheduler → Result ℕ)
    (willing : (job : Text) (s : Scheduler) → (task : ℕ) × (accept job s ≡ ok task)) where
  enqueue-Ends :
      (job : Text) (period : ℕ) (s : Scheduler)
      → Ends Never (λ _ t. t.runs ≡ s.runs) (enqueue accept job period) s
  unfolding enqueue
  enqueue-Ends job period s =
      let taken = willing job s in
      record {
        outcome =
            subst (λ r. Leaves Never (λ _ t. t.runs ≡ s.runs) (handed accept job period s r))
              (sym taken.1) refl;
      }

  claim-Ends :
      (job : Text) (period : ℕ) (s : Scheduler)
      → already_ran job period s ≡ false
      → Ends Never (λ _ t. HasRun job period t) (claim accept job period) s
  unfolding claim modify
  claim-Ends job period s free =
      let own : has_run job period (claim_row job period s.next_id) ≡ true =
        rw (text_eq_refl job) (ground arith) in
      Ends-gets _ _ _ (
        Ends-passed _ _ _ _ free (
          Ends-gets _ _ _ (
            Ends-modify _ _ _ (
              Ends-bind _ _ _ (enqueue-Ends job period _) λ task t same. record {
                outcome = any_updated _ _ _ t.runs (λ r e. e) (rw (same) (any_last _ s.runs _ own));
              }))))

  taken-Ends :
      (job : Text) (period : ℕ) (s : Scheduler)
      → HasRun job period s
      → Ends Never (λ _ t. HasRun job period t) (try_claim accept job period) s
  unfolding try_claim claim atomic gets raise_if raise ◌>>=◌
  taken-Ends job period s e = record { outcome = rw (e) e }

  try_claim-Ends :
      (job : Text) (period : ℕ) (s : Scheduler)
      → Ends Never (λ _ t. HasRun job period t) (try_claim accept job period) s
  unfolding try_claim
  try_claim-Ends job period s = elim (Bool-cases (already_ran job period s)) [
    | inl e ↦ taken-Ends job period s e
    | inr e ↦ record {
      outcome =
          none_if_refused-Leaves (HasRun job period) s (claim accept job period s)
            (claim-Ends job period s e).outcome;
    }
  ]

  module _ (local_day local_time : ℕ → ℕ) (now : ℕ) where
    -- A schedule that is due has its run.
    abbrev pub IsStarted : Scheduler → DailySchedule → Type 0
    IsStarted s schedule =
        is_due local_time schedule now ≡ true → HasRun schedule.name (local_day now) s

    start_unless-Ends :
        (ran : Bool) (schedule : DailySchedule) (started : List Text) (s : Scheduler)
        → already_ran schedule.name (local_day now) s ≡ ran
        → Ends Never
            (λ _ t. HasRun schedule.name (local_day now) t)
            (start_unless accept local_day local_time ran now schedule started)
            s
    start_unless-Ends true schedule started s h = Ends-pure _ _ h
    start_unless-Ends false schedule started s h =
        Ends-bind _ _ s (try_claim-Ends schedule.name (local_day now) s)
          λ claimed t x. Ends-pure _ _ x

    start_if_due-Ends :
        (schedule : DailySchedule) (started : List Text) (s : Scheduler)
        → Ends Never
            (λ _ t. IsStarted t schedule)
            (start_if_due accept local_day local_time now schedule started)
            s
    unfolding start_if_due
    start_if_due-Ends schedule started s = elim (Bool-cases (is_due local_time schedule now)) [
      | inl due ↦ rw (due) (
          Ends-gets _ _ _ (
            Ends-weaken _ s (λ _ never. never) (λ _ _ x _. x)
              (start_unless-Ends (already_ran schedule.name (local_day now) s) schedule started s
                refl)))
      | inr early ↦ rw (early) (Ends-pure _ _ (λ due. cc))
    ]

    IsStarted-Keeps :
        (schedule : DailySchedule) (schedules : List DailySchedule) (started : List Text)
        → Keeps
            (λ t. IsStarted t schedule)
            (enqueue_each accept local_day local_time now schedules started)
    IsStarted-Keeps schedule schedules started = record {
      after = λ s h due.
          (enqueue_each-Keeps accept schedule.name (local_day now) local_day local_time now
              schedules started).after
            s (h due);
    }

    enqueue_each-Ends :
        (schedules : List DailySchedule) (started : List Text) (s : Scheduler)
        → Ends Never
            (λ _ t. All (IsStarted t) schedules)
            (enqueue_each accept local_day local_time now schedules started)
            s
    unfolding enqueue_each
    enqueue_each-Ends [] started s = Ends-pure _ _ tt
    enqueue_each-Ends (schedule ∷ schedules) started s =
        Ends-bind _ _ s (start_if_due-Ends schedule started s) λ next t x.
          Ends-weaken _ t (λ _ never. never) (λ _ _ y. (y.1, y.0))
            (Ends-also _ _ _ _ t (IsStarted-Keeps schedule schedules next) x
              (enqueue_each-Ends schedules next t))

    -- Where the backend takes every task, a tick does not fail, and every schedule that is due has
    -- its run of the day afterwards.
    pub enqueue_due-IsStarted :
        (schedules : List DailySchedule) (s : Scheduler)
        → (started : List Text) × (t : Scheduler) × (enqueue_due accept local_day local_time now
              schedules s
            ≡ (ok started, t))
          × All (IsStarted t) schedules
    unfolding enqueue_due
    enqueue_due-IsStarted schedules s = returned _ _ (enqueue_each-Ends schedules [] s).outcome
