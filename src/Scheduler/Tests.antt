-- ===== src/Scheduler/Tests.antt =====
-- A scheduler with a job that runs once and one that runs at intervals.
use Prim.Native.String.{count}
use swaybot.Prelude.{
  ℕ, zero, suc, ◌+◌, ◌-◌, ◌≡◌, ◌≤◌, refl, String, true, false, none, some, err, inr, List, [], ◌∷◌,
  ltb, string_eq, nat_eq,
}
use swaybot.Prelude.Text.{◌⧺◌}
use swaybot.Prelude.Dict.{lookup, insert}
use swaybot.Scheduler.Job.{
  Calendar, Job, pos, negsuc, one_shot, interval, parse_time, next_instant, compute_next_run,
}
use swaybot.Scheduler.Engine.{
  State, Request, adding, starting, ticking, stop_begins, Event, steps, step, add_job, start,
  load_state, tick, sweep, visit, is_ready, schedule_run, finish_task, end_stop, begin_stop,
  new_scheduler,
}
use swaybot.Scheduler.Live.{tally}
use swaybot.Scheduler.Counting.{live}
use swaybot.Scheduler.Running.{running_count-steps}
use swaybot.Scheduler.Due.{tick-starts}
use swaybot.Scheduler.OneShot.{finish_task-end_stop, visit-is_ready}

-- Instants as strokes, one more than the number, so that no text is empty.
unfoldable strokes : ℕ → String
strokes zero = "|"
strokes (suc n) = "|" ⧺ strokes n

abbrev clock_calendar : Calendar ℕ ℕ
clock_calendar = record {
  isoformat = strokes;
  fromisoformat = λ text. some (count text - 1);
  before = ltb;
  plus = ◌+◌;
  get_next = λ expression now. err "croniter is required for cron schedules";
}

abbrev nothing_yet : Job ℕ
nothing_yet = record {
  id = "";
  name = "";
  schedule = one_shot;
  max_running = 0;
  enabled = false;
  last_run = none;
  next_run = none;
  running_count = pos 0;
}

abbrev once : Request ℕ
once = record {
  schedule = one_shot;
  name = none;
  max_running = 2;
  enabled = true;
  job_id = some "once";
}

abbrev often : Request ℕ
often = record {
  schedule = interval 5;
  name = some "often";
  max_running = 1;
  enabled = true;
  job_id = none;
}

-- Both jobs are added at 3; a pass at 4 starts the first, and one at 9 both.
abbrev day : List (Event ℕ ℕ)
day =
    adding once "u1" 3
    ∷ adding often "u2" 3
    ∷ starting
    ∷ ticking 4 (λ a. 4)
    ∷ ticking 9 (λ a. 9)
    ∷ []

abbrev after : List (Event ℕ ℕ) → State ℕ
after es = steps clock_calendar es (new_scheduler (λ a. nothing_yet) none)

running_count-steps_example :
    (((after day).heap 1).running_count ≡ pos (live 1 (after day)))
    × (live 1 (after day) ≤ ((after day).heap 1).max_running)
unfolding steps step add_job start load_state tick sweep visit is_ready schedule_run
    compute_next_run next_instant parse_time lookup insert strokes
running_count-steps_example =
    running_count-steps clock_calendar day (λ a. nothing_yet) none "u2" 1
      (tt, (tt, (inr (refl, refl), (tt, (tt, tt))))) refl refl

-- The two runs of the first job and the one of the second.
day_counts :
    (live 0 (after day) ≡ 2)
    × (live 1 (after day) ≡ 1)
    × (((after day).heap 0).running_count ≡ pos 2)
unfolding steps step add_job start load_state tick sweep visit is_ready schedule_run
    compute_next_run next_instant parse_time lookup insert strokes tally
day_counts = (refl, refl, refl)

abbrev morning : List (Event ℕ ℕ)
morning = adding once "u1" 3 ∷ starting ∷ []

tick-starts_example :
    suc (live 0 (after morning)) ≤ live 0 (tick clock_calendar 4 (λ a. 4) (after morning)).0
unfolding steps step add_job start load_state tick sweep visit is_ready schedule_run
    compute_next_run next_instant parse_time lookup insert strokes tally
tick-starts_example =
    tick-starts clock_calendar 4 (λ a. 4) "once" 0 (after morning) refl refl refl refl

visit-is_ready_example :
    is_ready clock_calendar 7 ((visit clock_calendar 4 5 0 (after morning)).0.heap 0) ≡ true
unfolding steps step add_job start load_state tick sweep visit is_ready schedule_run
    compute_next_run next_instant parse_time lookup insert strokes tally
visit-is_ready_example =
    visit-is_ready clock_calendar 4 5 7 0 (after morning) refl refl refl refl refl refl

-- One run is going on when `stop` begins.
abbrev evening : List (Event ℕ ℕ)
evening = adding once "u1" 3 ∷ starting ∷ ticking 4 (λ a. 4) ∷ stop_begins ∷ []

finish_task-end_stop_example :
    ((finish_task 0 "later" (end_stop (after evening))).heap 0).running_count ≡ negsuc 0
unfolding steps step add_job start load_state tick sweep visit is_ready schedule_run
    compute_next_run next_instant parse_time lookup insert strokes tally begin_stop
finish_task-end_stop_example =
    finish_task-end_stop (after evening) "once" 0
      (record { address = 0; name = "job-once"; cancelled = true }) "later" refl refl refl
