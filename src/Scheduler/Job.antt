-- ===== src/Scheduler/Job.antt =====
-- `Job`, its schedules and its next run, of swaybot/goals/scheduler.py. `datetime` is a calendar of
-- instants `T`; a delay in seconds and a cron expression are what the calendar makes of them.
use swaybot.Prelude.{
  ℕ, zero, suc, String, Bool, true, false, not, Option, none, some, Result, ok, err, leb,
  if◌then◌else◌, ◌==◌, string_eq,
}

-- Python's `int`, for a count that is also taken down.
pub data ℤ : Type 0 where
  pos negsuc : ℕ → ℤ

-- `n + 1`
abbrev pub incremented : ℤ → ℤ
incremented (pos n) = pos (suc n)
incremented (negsuc zero) = pos zero
incremented (negsuc (suc n)) = negsuc n

-- `n - 1`
abbrev pub decremented : ℤ → ℤ
decremented (pos (suc n)) = pos n
decremented (pos zero) = negsuc zero
decremented (negsuc n) = negsuc (suc n)

-- `n >= limit`
abbrev pub at_least : ℤ → ℕ → Bool
at_least (pos n) limit = leb limit n
at_least (negsuc n) limit = false

-- `D` stands for the seconds of an interval.
pub data Schedule (D : Type 0) : Type 0 where
  one_shot : Schedule D
  interval : D → Schedule D
  cron : String → Schedule D

pub record Job (D : Type 0) : Type 0 where
  pub id : String
  pub name : String
  pub schedule : Schedule D
  pub max_running : ℕ
  pub enabled : Bool
  pub last_run : Option String
  pub next_run : Option String
  pub running_count : ℤ

-- `datetime` and `croniter`: `get_next` raises where croniter is missing or refuses the expression.
pub record Calendar (T D : Type 0) : Type 0 where
  pub isoformat : T → String
  pub fromisoformat : String → Option T
  pub before : T → T → Bool
  pub plus : T → D → T
  pub get_next : String → T → Result String T

abbrev pub is_one_shot : {D : Type 0} → Schedule D → Bool
is_one_shot one_shot = true
is_one_shot _ = false

module _ {T D : Type 0} (calendar : Calendar T D) where
  -- `_parse_time`
  unfoldable pub parse_time : Option String → Option T
  parse_time none = none
  parse_time (some text) = if text == "" then none else calendar.fromisoformat text

  -- `a >= b`, on instants, which are totally ordered.
  abbrev pub is_due : T → T → Bool
  is_due now next = not (calendar.before now next)

  -- `max(last, now) if last is not None else now`
  abbrev pub base_of : Option T → T → T
  base_of none now = now
  base_of (some last) now = if calendar.before last now then now else last

  -- The instant that `_compute_next_run` writes.
  unfoldable pub next_instant : T → Job D → Result String T
  next_instant now job = elim job.schedule [
    | one_shot ↦ ok now
    | interval seconds ↦ ok (calendar.plus (base_of (parse_time job.last_run) now) seconds)
    | cron expression ↦ calendar.get_next expression now
  ]

  -- `_compute_next_run`: the job, and what was raised.
  unfoldable pub compute_next_run : T → Job D → Job D × Option String
  compute_next_run now job = elim (next_instant now job) [
    | ok next ↦ (record job { next_run = some (calendar.isoformat next) }, none)
    | err raised ↦ (job, some raised)
  ]
