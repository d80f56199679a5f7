-- ===== src/Scheduler/Engine.antt =====
-- `Scheduler` of swaybot/goals/scheduler.py, as steps on its state. The jobs are objects at addresses,
-- since a run keeps its job when the registry drops or replaces it. Between two waits of the event loop
-- the code of one step runs alone.
use swaybot.Prelude.{
  ℕ, zero, suc, String, Bool, true, false, not, ◌&&◌, ◌||◌, Option, none, some, List, [], ◌∷◌, ◌++◌,
  map, get_elem?, if◌then◌else◌, when_some, ◌==◌, string_eq, nat_eq,
}
use swaybot.Prelude.Dict.{lookup, insert, erase}
use swaybot.Prelude.Text.{◌⧺◌}
use swaybot.Scheduler.Job.{
  pos, Schedule, Job, Calendar, incremented, decremented, at_least, is_one_shot, parse_time, is_due,
  compute_next_run,
}

-- An `asyncio.Task` of `_run_job`, with its name.
pub record Task : Type 0 where
  pub address : ℕ
  pub name : String
  pub cancelled : Bool

-- What `_persist_state` keeps of a job.
pub record Saved : Type 0 where
  pub last_run : Option String
  pub next_run : Option String

-- `stored` is the value at the state key of the backend, if any; an entry that is no dictionary is `none`.
pub record State (D : Type 0) : Type 0 where
  pub heap : ℕ → Job D
  pub fresh : ℕ
  pub jobs : List (String × ℕ)
  pub tasks : List Task
  pub running : Bool
  pub stopping : Bool
  pub wake : Bool
  pub stored : Option (List (String × Option Saved))

-- The arguments of `add_job`.
pub record Request (D : Type 0) : Type 0 where
  pub schedule : Schedule D
  pub name : Option String
  pub max_running : ℕ
  pub enabled : Bool
  pub job_id : Option String

-- `value or other`
abbrev pub or_else : Option String → String → String
or_else none other = other
or_else (some value) other = if value == "" then other else value

-- `f"job-{job_id}"`
abbrev pub task_name : String → String
task_name id = "job-" ⧺ id

abbrev pub new_task : ℕ → String → Task
new_task a id = record { address = a; name = task_name id; cancelled = false }

-- `list[i]` taken out.
unfoldable pub remove_at {ℓ} : {A : Type ℓ} → ℕ → List A → List A
remove_at i [] = []
remove_at zero (x ∷ xs) = xs
remove_at (suc i) (x ∷ xs) = x ∷ remove_at i xs

-- `task.cancel()` for those of the name.
unfoldable pub cancel_named : String → List Task → List Task
cancel_named name [] = []
cancel_named name (t ∷ ts) =
    (if t.name == name then record t { cancelled = true } else t) ∷ cancel_named name ts

abbrev pub cancel : Task → Task
cancel t = record t { cancelled = true }

module _ {D : Type 0} where
  -- The object at an address, replaced.
  abbrev pub write : ℕ → Job D → (ℕ → Job D) → ℕ → Job D
  write a job heap b = if a == b then job else heap b

  abbrev pub saved : Job D → Saved
  saved job = record { last_run = job.last_run; next_run = job.next_run }

  -- The dictionary that `_persist_state` builds.
  unfoldable pub saved_states :
      (ℕ → Job D) → List (String × ℕ) → List (String × Option Saved) → List (String × Option Saved)
  saved_states heap [] states = states
  saved_states heap ((k, a) ∷ jobs) states =
      saved_states heap jobs (insert (heap a).id (some (saved (heap a))) states)

  unfoldable pub persist_state : State D → State D
  persist_state s = record s { stored = some (saved_states s.heap s.jobs []) }

  -- The job of a request.
  abbrev pub new_job : Request D → String → Job D
  new_job request id = record {
    id = id;
    name = or_else request.name id;
    schedule = request.schedule;
    max_running = request.max_running;
    enabled = request.enabled;
    last_run = none;
    next_run = none;
    running_count = pos 0;
  }

  -- `__init__`; what lies at addresses that are not given out does not matter.
  abbrev pub new_scheduler : (ℕ → Job D) → Option (List (String × Option Saved)) → State D
  new_scheduler heap stored = record {
    heap = heap;
    fresh = 0;
    jobs = [];
    tasks = [];
    running = false;
    stopping = false;
    wake = false;
    stored = stored;
  }

  -- What `_load_state` does to a job with an entry.
  abbrev pub restored : Saved → Job D → Job D
  restored entry job = record job {
    last_run = entry.last_run;
    next_run = entry.next_run;
    running_count = pos 0;
  }

  abbrev pub restore_at : List (String × ℕ) → String × Option Saved → (ℕ → Job D) → ℕ → Job D
  restore_at jobs (id, none) heap = heap
  restore_at jobs (id, some entry) heap =
      when_some (lookup id jobs) heap (λ a. write a (restored entry (heap a)) heap)

  unfoldable pub restore :
      List (String × Option Saved) → List (String × ℕ) → (ℕ → Job D) → ℕ → Job D
  restore [] jobs heap = heap
  restore (entry ∷ entries) jobs heap = restore entries jobs (restore_at jobs entry heap)

  unfoldable pub load_state : State D → State D
  load_state s = when_some s.stored s (λ entries. record s { heap = restore entries s.jobs s.heap })

  -- `_schedule_run`
  unfoldable pub schedule_run : ℕ → State D → State D
  schedule_run a s =
      let job = s.heap a in
      record s {
        heap = write a (record job { running_count = incremented job.running_count }) s.heap;
        tasks = s.tasks ++ new_task a job.id ∷ [];
      }

  -- `run_job_now`
  unfoldable pub run_job_now : String → State D → State D
  run_job_now id s = when_some (lookup id s.jobs) s (λ a.
      let job = s.heap a in
      if not job.enabled || at_least job.running_count job.max_running then s else schedule_run a s)

  -- `remove_job`
  unfoldable pub remove_job : String → State D → State D
  remove_job id s = when_some (lookup id s.jobs) s (λ a.
      persist_state
        (record s { jobs = erase id s.jobs; tasks = cancel_named (task_name id) s.tasks }))

  -- What `_run_job` makes of its job in the end.
  abbrev pub settled : String → Job D → Job D
  settled now job = record job {
    running_count = decremented job.running_count;
    last_run = some now;
    enabled = if is_one_shot job.schedule then false else job.enabled;
  }

  -- The end of a run that had begun, whether it returned, raised or was cancelled, and its callback.
  unfoldable pub finish_task : ℕ → String → State D → State D
  finish_task i now s = when_some (get_elem? s.tasks i) s (λ t.
      let heap_after = write t.address (settled now (s.heap t.address)) s.heap in
      record (persist_state (record s { heap = heap_after })) {
        wake = true;
        tasks = remove_at i s.tasks;
      })

  -- A run that was cancelled before it began: asyncio does not enter its body.
  unfoldable pub abandon_task : ℕ → State D → State D
  abandon_task i s =
      when_some (get_elem? s.tasks i) s
        (λ t. if t.cancelled then record s { tasks = remove_at i s.tasks } else s)

  -- `start`
  unfoldable pub start : State D → State D
  start s = if s.running then s else record (load_state s) { running = true }

  -- `stop`, up to its wait for the loop.
  unfoldable pub begin_stop : State D → State D
  begin_stop s =
      if s.running
      then record s { running = false; stopping = true; tasks = map cancel s.tasks }
      else s

  unfoldable pub reset_counts : List (String × ℕ) → (ℕ → Job D) → ℕ → Job D
  reset_counts [] heap = heap
  reset_counts ((k, a) ∷ jobs) heap =
      reset_counts jobs (write a (record (heap a) { running_count = pos 0 }) heap)

  -- The rest of `stop`.
  unfoldable pub end_stop : State D → State D
  end_stop s =
      if s.stopping
      then persist_state (record s { stopping = false; heap = reset_counts s.jobs s.heap })
      else s

module _ {T D : Type 0} (calendar : Calendar T D) where
  -- `add_job`, with the id that `uuid` gives: the state, and the id or what was raised.
  unfoldable pub add_job : Request D → String → T → State D → State D × Option String
  add_job request uuid now s =
      let id = or_else request.job_id uuid in
      let computed = compute_next_run calendar now (new_job request id) in
      let registered = record s {
        heap = write s.fresh computed.0 s.heap;
        fresh = suc s.fresh;
        jobs = insert id s.fresh s.jobs;
      } in
      when_some computed.1 (registered, none) (λ raised. (s, some raised))

  -- Whether the loop starts the job at `now`.
  unfoldable pub is_ready : T → Job D → Bool
  unfolding parse_time
  is_ready now job = elim (parse_time calendar job.next_run) [
    | none ↦ false
    | some next ↦
        job.enabled && not (at_least job.running_count job.max_running) && is_due calendar now next
  ]

  -- One job of the loop; `later` is what the clock reads when its next run is computed.
  unfoldable pub visit : T → T → ℕ → State D → State D × Option String
  visit now later a s =
      if is_ready now (s.heap a)
      then (let t = schedule_run a s in
          let computed = compute_next_run calendar later (t.heap a) in
          (record t { heap = write a computed.0 t.heap }, computed.1))
      else (s, none)

  -- `for job in list(self._jobs.values())`: what is raised ends the loop.
  unfoldable pub sweep : T → (ℕ → T) → List (String × ℕ) → State D → State D × Option String
  sweep now clock [] s = (s, none)
  sweep now clock ((k, a) ∷ jobs) s =
      let visited = visit now (clock a) a s in
      let swept = sweep now clock jobs visited.0 in when_some visited.1 swept (λ raised. visited)

  -- One pass of `_loop`, up to its wait.
  unfoldable pub tick : T → (ℕ → T) → State D → State D × Option String
  tick now clock s =
      if s.running then sweep now clock s.jobs (record s { wake = false }) else (s, none)

  -- `_next_due_time`
  abbrev pub earlier : Option T → T → T
  earlier none t = t
  earlier (some best) t = if calendar.before t best then t else best

  abbrev pub due_of : T → Job D → Option T
  due_of now job = elim (parse_time calendar job.next_run) [
    | none ↦ none
    | some next ↦
        if job.enabled
          && not (at_least job.running_count job.max_running)
          && calendar.before now next
        then some next
        else none
  ]

  unfoldable pub next_due_time : T → Option T → List (String × ℕ) → (ℕ → Job D) → Option T
  next_due_time now best [] heap = best
  next_due_time now best ((k, a) ∷ jobs) heap = elim (due_of now (heap a)) [
    | none ↦ next_due_time now best jobs heap
    | some next ↦ next_due_time now (some (earlier best next)) jobs heap
  ]

-- The steps, in any order. The clock readings come with them.
pub data Event (T D : Type 0) : Type 0 where
  adding : Request D → String → T → Event T D
  removing running_now : String → Event T D
  starting stop_begins stop_ends : Event T D
  ticking : T → (ℕ → T) → Event T D
  finishing : ℕ → String → Event T D
  abandoning : ℕ → Event T D

module _ {T D : Type 0} (calendar : Calendar T D) where
  unfoldable pub step : Event T D → State D → State D
  step (adding request uuid now) s = (add_job calendar request uuid now s).0
  step (removing id) s = remove_job id s
  step (running_now id) s = run_job_now id s
  step starting s = start s
  step stop_begins s = begin_stop s
  step stop_ends s = end_stop s
  step (ticking now clock) s = (tick calendar now clock s).0
  step (finishing i now) s = finish_task i now s
  step (abandoning i) s = abandon_task i s

  unfoldable pub steps : List (Event T D) → State D → State D
  steps [] s = s
  steps (e ∷ es) s = steps es (step e s)
