-- ===== src/Scheduling.antt =====
-- core/scheduling.py and the rows of core/models.py that it claims. `local_day` and `local_time` are
-- the Istanbul day of a time and the seconds since that day's midnight; `accept` is the task
-- backend, which gives the key of a task's result or raises.
pub mod Claims
pub mod Due
pub mod Tests
use shiftlush_api.Prelude.{
  ℕ, ◌+◌, ◌*◌, Bool, true, false, not, ◌&&◌, Option, none, some, List, [], ◌∷◌, ◌++◌, Text, text,
  text_eq, any, update, leb, ◌==◌, if◌then◌else◌,
}
use shiftlush_api.Errors.{Error, integrity_error}
use shiftlush_api.Action.{
  Result, ok, err, Action, ⊤, pure, gets, raise_if, atomic, modify, none_if_refused, ◌>>=◌, ◌>>◌,
}

-- The period of a daily job is a day.
pub record ScheduledRun : Type 0 where
  pub id : ℕ
  pub job : Text
  pub period : ℕ
  pub task_id : Option ℕ

-- `queue` has what was enqueued, with the day that it was enqueued for.
pub record Scheduler : Type 0 where
  pub next_id : ℕ
  pub runs : List ScheduledRun
  pub queue : List (Text × ℕ)

-- `at` is in seconds of the day.
pub record DailySchedule : Type 0 where
  pub name : Text
  pub at : ℕ

abbrev pub daily : Text → ℕ → ℕ → DailySchedule
daily name hour minute = record { name = name; at = (hour * 60 + minute) * 60 }

abbrev pub get_schedules : List DailySchedule
get_schedules =
    daily (text "contract_expiry") 0 30
    ∷ daily (text "plan_maintenance") 1 0
    ∷ daily (text "purge_idempotency_keys") 3 0
    ∷ daily (text "purge_attachments") 3 15
    ∷ daily (text "prune_task_results") 3 30
    ∷ daily (text "purge_public_reporter_data") 3 45
    ∷ daily (text "carry_over_invoices") 4 30
    ∷ daily (text "draft_invoices") 5 0
    ∷ daily (text "contract_renewal_notice") 6 0
    ∷ daily (text "inspection_due_notice") 6 15
    ∷ daily (text "correction_deadline_notice") 6 30
    ∷ daily (text "maintenance_overdue") 7 0
    ∷ daily (text "monthly_customer_reports") 8 0
    ∷ []

abbrev pub has_run : Text → ℕ → ScheduledRun → Bool
has_run job period r = text_eq r.job job && r.period == period

-- `_already_ran`
abbrev pub already_ran : Text → ℕ → Scheduler → Bool
already_ran job period s = any (has_run job period) s.runs

abbrev pub with_task : ℕ → ScheduledRun → ScheduledRun
with_task task r = record r { task_id = some task }

abbrev pub has_run_id : ℕ → ScheduledRun → Bool
has_run_id k r = r.id == k

abbrev pub claim_row : Text → ℕ → ℕ → ScheduledRun
claim_row job period id = record { id = id; job = job; period = period; task_id = none }

-- `schedule.is_due`
abbrev pub is_due : (ℕ → ℕ) → DailySchedule → ℕ → Bool
is_due local_time schedule now = leb schedule.at (local_time now)

abbrev pub with_started : Text → Option ⊤ → List Text → List Text
with_started name none started = started
with_started name (some _) started = started ++ (name ∷ [])

-- What schedulers do, one transaction at a time: a tick, or the claim of another scheduler that
-- made its check before somebody else's claim.
pub data SchedulerCall : Type 0 where
  ticked : ℕ → List DailySchedule → SchedulerCall
  raced : ℕ → DailySchedule → SchedulerCall

module _ (accept : Text → Scheduler → Result ℕ) where
  abbrev pub handed : Text → ℕ → Scheduler → Result ℕ → Result ℕ × Scheduler
  handed job period s (ok task) = (ok task, record s { queue = s.queue ++ ((job, period) ∷ []) })
  handed job period s (err e) = (err e, s)

  -- `schedule.task.enqueue()`
  unfoldable pub enqueue : Text → ℕ → Action Scheduler ℕ
  enqueue job period s = handed job period s (accept job s)

  -- The claim and its task, in one transaction.
  unfoldable pub claim : Text → ℕ → Action Scheduler ⊤
  unfolding enqueue
  claim job period = do
    taken ← gets (already_ran job period)
    raise_if taken integrity_error
    id ← gets (λ s. s.next_id)
    modify (λ s. record s { runs = s.runs ++ (claim_row job period id ∷ []); next_id = id + 1 })
    task ← enqueue job period
    modify (λ s. record s { runs = update (has_run_id id) (with_task task) s.runs })

  -- `except IntegrityError: continue`
  unfoldable pub try_claim : Text → ℕ → Action Scheduler (Option ⊤)
  unfolding atomic
  try_claim job period s = none_if_refused (atomic (claim job period) s)

  module _ (local_day local_time : ℕ → ℕ) where
    abbrev pub start_unless : Bool → ℕ → DailySchedule → List Text → Action Scheduler (List Text)
    start_unless true now schedule started = pure started
    start_unless false now schedule started = try_claim schedule.name (local_day now) >>= λ claimed.
        pure (with_started schedule.name claimed started)

    -- One turn of the loop.
    unfoldable pub start_if_due : ℕ → DailySchedule → List Text → Action Scheduler (List Text)
    start_if_due now schedule started =
        if not (is_due local_time schedule now) then pure started else do
          ran ← gets (already_ran schedule.name (local_day now))
          start_unless ran now schedule started

    unfoldable pub enqueue_each : ℕ → List DailySchedule → List Text → Action Scheduler (List Text)
    enqueue_each now [] started = pure started
    enqueue_each now (schedule ∷ schedules) started =
        start_if_due now schedule started >>= λ next. enqueue_each now schedules next

    unfoldable pub enqueue_due : ℕ → List DailySchedule → Action Scheduler (List Text)
    enqueue_due now schedules = enqueue_each now schedules []

    unfoldable pub run : SchedulerCall → Action Scheduler ⊤
    run (ticked now schedules) = enqueue_due now schedules >> pure tt
    run (raced now schedule) = try_claim schedule.name (local_day now) >> pure tt

    unfoldable pub run_all : List SchedulerCall → Scheduler → Scheduler
    run_all [] s = s
    run_all (c ∷ cs) s = run_all cs (run c s).1
