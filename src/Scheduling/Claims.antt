-- ===== src/Scheduling/Claims.antt =====
-- core/scheduling.py: the claim of a job's run, and the queue.
use shiftlush_api.Prelude.{
  ℕ, ◌≡◌, inl, inr, Bool, true, false, not, ◌&&◌, Bool-cases, List, [], ◌∷◌, ◌++◌, Text, text_eq,
  text_eq-eq, text_eq_refl, any, any_appended, any_last, any_updated, update, All, All-map,
  All-append, true_and_false, ◌==◌, arith,
}
use shiftlush_api.Action.{Result, ok, err, pure, atomic, modify}
use shiftlush_api.Action.Outcome.{
  Ends, Leaves, Ends-gets, Ends-guard, Ends-modify, Ends-bind, Ends-atomic,
}
use shiftlush_api.Action.Never.{none_if_refused-Keeps}
use shiftlush_api.Action.Keeps.{
  Keeps, Keeps-Ends, Keeps-bind, Keeps-if, Keeps-gets, Keeps-pure, keeps_rules,
}
use shiftlush_api.Scheduling.{
  ScheduledRun, Scheduler, DailySchedule, has_run, with_task, has_run_id, handed, enqueue, claim,
  try_claim, is_due, start_unless, start_if_due, enqueue_each, enqueue_due, SchedulerCall, ticked,
  raced, run, run_all,
}

-- The same job for the same day.
abbrev pub is_same : Text × ℕ → Text × ℕ → Bool
is_same (job, period) (other, day) = text_eq job other && period == day

abbrev pub IsOnce : List (Text × ℕ) → Type 0
IsOnce [] = Unit {0}
IsOnce (q ∷ qs) = All (λ r. is_same r q ≡ false) qs × IsOnce qs

abbrev HasRun : List ScheduledRun → Text × ℕ → Type 0
HasRun runs (job, period) = any (has_run job period) runs ≡ true

-- What is in the queue is there once, and has its row.
pub record IsClaimed (s : Scheduler) : Type 0 where
  pub once : IsOnce s.queue
  pub claimed : All (HasRun s.runs) s.queue

IsOnce-append :
    (qs : List (Text × ℕ)) (q : Text × ℕ)
    → All (λ r. is_same q r ≡ false) qs
    → IsOnce qs
    → IsOnce (qs ++ (q ∷ []))
IsOnce-append [] q h once = (tt, tt)
IsOnce-append (r ∷ rs) q (h, hs) (one, ones) =
    (All-append _ rs (q ∷ []) one (h, tt), IsOnce-append rs q hs ones)

-- What has a row already is not the job that has none.
unclaimed :
    (job : Text) (period : ℕ) (runs : List ScheduledRun) (q : Text × ℕ)
    → any (has_run job period) runs ≡ false
    → HasRun runs q
    → is_same (job, period) q ≡ false
unclaimed job period runs (other, day) free ran =
    elim (Bool-cases (is_same (job, period) (other, day))) [
      | inl e ↦
          let job_same : text_eq job other ≡ true = ground arith in
          let day_same : period ≡ day = ground arith in
          let same_job = text_eq-eq job other job_same in
          true_and_false (rw (same_job) (rw (day_same) ran)) free
      | inr e ↦ e
    ]

module _ (accept : Text → Scheduler → Result ℕ) where
  -- Between the claim and its task.
  record IsClaiming (job : Text) (period : ℕ) (s : Scheduler) : Type 0 where
    sound : IsClaimed s
    fresh : All (λ q. is_same (job, period) q ≡ false) s.queue
    made : HasRun s.runs (job, period)

  enqueue-Ends :
      (job : Text) (period : ℕ) (s : Scheduler)
      → IsClaiming job period s
      → Ends (λ _. Unit {0}) (λ _ t. IsClaimed t) (enqueue accept job period) s
  unfolding enqueue
  enqueue-Ends job period s h = record { outcome = ends (accept job s) }
    where
      ends :
          (r : Result ℕ)
          → Leaves (λ _. Unit {0}) (λ _ t. IsClaimed t) (handed accept job period s r)
      ends (ok task) = record {
        once = IsOnce-append s.queue (job, period) h.fresh h.sound.once;
        claimed = All-append _ s.queue _ h.sound.claimed (h.made, tt);
      }
      ends (err e) = tt

  HasRun-update :
      (k task : ℕ) (runs : List ScheduledRun) (q : Text × ℕ)
      → HasRun runs q
      → HasRun (update (has_run_id k) (with_task task) runs) q
  HasRun-update k task runs (job, period) h = any_updated _ _ _ runs (λ r e. e) h

  HasRun-append :
      (row : ScheduledRun) (runs : List ScheduledRun) (q : Text × ℕ)
      → HasRun runs q
      → HasRun (runs ++ (row ∷ [])) q
  HasRun-append row runs (job, period) h = any_appended _ runs _ h

  claim-Ends :
      (job : Text) (period : ℕ) (s : Scheduler)
      → IsClaimed s
      → Ends (λ _. Unit {0}) (λ _ t. IsClaimed t) (claim accept job period) s
  unfolding claim modify
  claim-Ends job period s h = Ends-gets _ _ _ (
      Ends-guard _ _ _ _ tt λ free. Ends-gets _ _ _ (
        Ends-modify _ _ _ (
          Ends-bind _ _ _
            (enqueue-Ends job period _ (record {
              sound = record {
                once = h.once;
                claimed = All-map s.queue (HasRun-append _ s.runs) h.claimed;
              };
              fresh = All-map s.queue (λ q ran. unclaimed job period s.runs q free ran) h.claimed;
              made = any_last _ s.runs _ (rw (text_eq_refl job) (ground arith));
            }))
            λ task t x. record {
              outcome = record {
                once = x.once;
                claimed = All-map t.queue (HasRun-update _ task t.runs) x.claimed;
              };
            })))

  claim-Keeps : (job : Text) (period : ℕ) → Keeps IsClaimed (atomic (claim accept job period))
  claim-Keeps job period =
      Keeps-Ends {Q = λ _ _ t. IsClaimed t} _
        (λ s h. Ends-atomic {X = λ _. Unit {0}} _ s h (claim-Ends job period s h)) λ s x _ t y. y

  try_claim-Keeps : (job : Text) (period : ℕ) → Keeps IsClaimed (try_claim accept job period)
  unfolding try_claim
  try_claim-Keeps job period = record {
    after = λ s h.
        none_if_refused-Keeps IsClaimed (atomic (claim accept job period) s)
          ((claim-Keeps job period).after s h);
  }

  module _ (local_day local_time : ℕ → ℕ) where
    start_unless-Keeps :
        (ran : Bool) (now : ℕ) (schedule : DailySchedule) (started : List Text)
        → Keeps IsClaimed (start_unless accept local_day local_time ran now schedule started)
    start_unless-Keeps true now schedule started = search keeps_rules
    start_unless-Keeps false now schedule started = search (keeps_rules, try_claim-Keeps)

    start_if_due-Keeps :
        (now : ℕ) (schedule : DailySchedule) (started : List Text)
        → Keeps IsClaimed (start_if_due accept local_day local_time now schedule started)
    unfolding start_if_due
    start_if_due-Keeps now schedule started =
        Keeps-if (not (is_due local_time schedule now)) (pure started) _ (Keeps-pure started)
          (Keeps-bind _ _ (Keeps-gets _) λ ran. start_unless-Keeps ran now schedule started)

    enqueue_each-Keeps :
        (now : ℕ) (schedules : List DailySchedule) (started : List Text)
        → Keeps IsClaimed (enqueue_each accept local_day local_time now schedules started)
    unfolding enqueue_each
    enqueue_each-Keeps now [] started = search keeps_rules
    enqueue_each-Keeps now (schedule ∷ schedules) started =
        Keeps-bind _ _ (start_if_due-Keeps now schedule started)
          λ next. enqueue_each-Keeps now schedules next

    run-Keeps : (c : SchedulerCall) → Keeps IsClaimed (run accept local_day local_time c)
    unfolding run enqueue_due
    run-Keeps (ticked now schedules) =
        Keeps-bind _ _ (enqueue_each-Keeps now schedules []) λ _. Keeps-pure tt
    run-Keeps (raced now schedule) = Keeps-bind _ _ (try_claim-Keeps _ _) λ _. Keeps-pure tt

    -- Where each queued job has its row and no job is queued twice for a day, that stays so whatever
    -- the schedulers do in whatever order, at whatever times: also where the backend refuses a task,
    -- and where one scheduler made its check before the other's claim.
    pub run_all-IsClaimed :
        (cs : List SchedulerCall) (s : Scheduler)
        → IsClaimed s
        → IsClaimed (run_all accept local_day local_time cs s)
    unfolding run_all
    run_all-IsClaimed [] s h = h
    run_all-IsClaimed (c ∷ cs) s h = run_all-IsClaimed cs _ ((run-Keeps c).after s h)
