-- ===== src/Scheduling/Tests.antt =====
-- core/scheduling.py on two jobs, with a backend that takes every task and one that takes none.
use shiftlush_api.Prelude.{
  ℕ, ◌+◌, ◌*◌, ◌/◌, ◌%◌, ◌≡◌, refl, List, [], ◌∷◌, Text, text, text_eq, any, update, All,
}
use shiftlush_api.Errors.{runtime_error}
use shiftlush_api.Action.{Result, ok, err, ◌>>=◌}
use shiftlush_api.Scheduling.{
  Scheduler, DailySchedule, daily, get_schedules, claim, enqueue, try_claim, start_if_due,
  enqueue_each, enqueue_due, SchedulerCall, ticked, raced, run, run_all,
}
use shiftlush_api.Scheduling.Claims.{IsClaimed, run_all-IsClaimed}
use shiftlush_api.Scheduling.Due.{IsStarted, enqueue_due-IsStarted}

abbrev takes_all : Text → Scheduler → Result ℕ
takes_all job s = ok s.next_id

abbrev takes_none : Text → Scheduler → Result ℕ
takes_none job s = err runtime_error

-- Istanbul is three hours ahead.
abbrev day_of : ℕ → ℕ
day_of now = (now + 10800) / 86400

abbrev time_of : ℕ → ℕ
time_of now = (now + 10800) % 86400

abbrev idle : Scheduler
idle = record { next_id = 1; runs = []; queue = [] }

abbrev two_jobs : List DailySchedule
two_jobs = daily (text "early") 1 0 ∷ daily (text "late") 7 0 ∷ []

-- 03:00 in Istanbul.
abbrev night : ℕ
night = 86400 * 20000

queue_after : List SchedulerCall → List (Text × ℕ)
unfolding run run_all enqueue_due enqueue_each start_if_due try_claim claim enqueue any update
    text_eq ◌>>=◌
queue_after cs = (run_all takes_all day_of time_of cs idle).queue

-- A second tick and a late claim start nothing again; the next day does.
queue_over_two_days :
    queue_after (
      ticked night two_jobs
      ∷ ticked (night + 60) two_jobs
      ∷ raced (night + 61) (daily (text "early") 1 0)
      ∷ ticked (night + 86400) two_jobs
      ∷ [])
    ≡ (text "early", 20000) ∷ (text "early", 20001) ∷ []
unfolding queue_after
queue_over_two_days = refl

idle-IsClaimed : IsClaimed idle
idle-IsClaimed = record { once = tt; claimed = tt }

run_all-IsClaimed_example : IsClaimed (
    run_all takes_all day_of time_of
      (ticked night two_jobs ∷ raced night (daily (text "early") 1 0) ∷ [])
      idle)
run_all-IsClaimed_example =
    run_all-IsClaimed takes_all day_of time_of
      (ticked night two_jobs ∷ raced night (daily (text "early") 1 0) ∷ []) idle idle-IsClaimed

-- What the backend refuses is not claimed.
not_claimed :
    (enqueue_due takes_none day_of time_of night two_jobs idle) ≡ (err runtime_error, idle)
unfolding enqueue_due enqueue_each start_if_due try_claim claim enqueue any ◌>>=◌
not_claimed = refl

enqueue_due-IsStarted_example :
    (started : List Text) × (t : Scheduler) × (enqueue_due takes_all day_of time_of night
        get_schedules idle
      ≡ (ok started, t))
    × All (IsStarted takes_all (λ job s. (s.next_id, refl)) day_of time_of night t) get_schedules
enqueue_due-IsStarted_example =
    enqueue_due-IsStarted takes_all (λ job s. (s.next_id, refl)) day_of time_of night get_schedules
      idle
