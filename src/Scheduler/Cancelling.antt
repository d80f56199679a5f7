-- ===== src/Scheduler/Cancelling.antt =====
-- The steps of the scheduler that end runs, drop jobs and add them keep the running counts right.
use swaybot.Prelude.{
  ap, All-map, when_some_induction, if_induction, ℕ, ◌≡◌, sym, subst, arith, String, Bool, true,
  false, some, List, [], map, get_elem?, ◌==◌, string_eq, nat_eq, eq_iff,
}
use text.Mathlib.TextLemmas.{append_cancel_left}
use swaybot.Prelude.Dict.{lookup, All-erase}
use swaybot.Scheduler.Job.{pos, Job}
use swaybot.Scheduler.Engine.{
  State, Task, task_name, persist_state, finish_task, abandon_task, remove_job, remove_at, settled,
  cancel, cancel_named, begin_stop,
}
use swaybot.Scheduler.Live.{
  tally, is_at, is_doomed, is_misnamed, tally-nil, tally-remove_at, tally-cancel_named,
  misnamed-cancel_named, doomed-cancel_named, tally-cancel, misnamed-cancel,
}
use swaybot.Scheduler.Counting.{Fits, Held, Sound, write_at}

module _ {D : Type 0} {fresh : ℕ} {stopping : Bool} {tasks : List Task} where
  -- The end of a run of the job.
  Fits-settled :
      {k : String} (job : Job D) (now : String) (i : ℕ) (t : Task)
      → get_elem? tasks i ≡ some t
      → Fits fresh stopping tasks k t.address job
      → Fits fresh stopping (remove_at i tasks) k t.address (settled now job)
  Fits-settled {k = k} job now i t found fits = ground (
    arith,
    fits,
    tally-remove_at (is_at t.address) i tasks t found,
    tally-remove_at (is_doomed t.address) i tasks t found,
    tally-remove_at (is_misnamed (task_name k) t.address) i tasks t found,
  )

  -- The end of a run of another job.
  Fits-remove_at :
      {k : String} {b : ℕ} {job : Job D} (i : ℕ) (t : Task)
      → get_elem? tasks i ≡ some t
      → (t.address == b) ≡ false
      → Fits fresh stopping tasks k b job
      → Fits fresh stopping (remove_at i tasks) k b job
  Fits-remove_at {k = k} {b = b} i t found other fits = ground (
    arith,
    fits,
    other,
    tally-remove_at (is_at b) i tasks t found,
    tally-remove_at (is_doomed b) i tasks t found,
    tally-remove_at (is_misnamed (task_name k) b) i tasks t found,
  )

  -- A cancelled run that never began.
  Fits-abandoned :
      {k : String} {b : ℕ} {job : Job D} (i : ℕ) (t : Task)
      → get_elem? tasks i ≡ some t
      → t.cancelled ≡ true
      → Fits fresh stopping tasks k b job
      → Fits fresh stopping (remove_at i tasks) k b job
  Fits-abandoned {k = k} {b = b} i t found gone fits = ground (
    arith,
    fits,
    gone,
    tally-remove_at (is_at b) i tasks t found,
    tally-remove_at (is_doomed b) i tasks t found,
    tally-remove_at (is_misnamed (task_name k) b) i tasks t found,
  )

  Fits-cancel_named :
      {k : String} {b : ℕ} {job : Job D} (name : String)
      → (task_name k == name) ≡ false
      → Fits fresh stopping tasks k b job
      → Fits fresh stopping (cancel_named name tasks) k b job
  Fits-cancel_named {k = k} {b = b} name other fits = ground (
    arith,
    fits,
    tally-cancel_named b name tasks,
    misnamed-cancel_named (task_name k) b name tasks,
    doomed-cancel_named (task_name k) b name tasks other fits.named,
  )

  Fits-stopping :
      {k : String} {b : ℕ} {job : Job D}
      → Fits fresh stopping tasks k b job
      → Fits fresh true (map cancel tasks) k b job
  Fits-stopping {k = k} {b = b} fits = ground (arith, fits, misnamed-cancel (task_name k) b tasks)

-- With no run left, a count of 0 is right.
pub Fits-reset :
    {D : Type 0} {fresh : ℕ} {stopping after : Bool} {tasks : List Task} {k : String} {b : ℕ}
    {job : Job D} (other : Job D)
    → tasks ≡ []
    → other.id ≡ job.id
    → other.running_count ≡ pos 0
    → Fits fresh stopping tasks k b job
    → Fits fresh after tasks k b other
Fits-reset {tasks = tasks} {k = k} {b = b} other idle id count fits = ground (
  arith,
  fits,
  ap (tally (is_at b)) idle,
  ap (tally (is_doomed b)) idle,
  tally-nil (is_at b),
  tally-nil (is_doomed b),
)

other_name : (k j : String) → (k == j) ≡ false → (task_name k == task_name j) ≡ false
other_name k j other =
    ground
      (arith, other, append_cancel_left "job-" k j, eq_iff k j, eq_iff (task_name k) (task_name j))

module _ {D : Type 0} where
  pub finish_task-Sound :
      (i : ℕ) (now : String) (s : State D) → Sound s → Sound (finish_task i now s)
  unfolding finish_task persist_state
  finish_task-Sound i now s sound =
      when_some_induction Sound (get_elem? s.tasks i) (λ missing. sound)
        (λ t found. record {
          held =
              All-map s.jobs
                (λ entry fits.
                  write_at (Fits s.fresh s.stopping (remove_at i s.tasks) entry.0) s.heap t.address
                    entry.1 (settled now (s.heap t.address))
                    (λ same.
                      Fits-settled (s.heap t.address) now i t found
                        (subst (Held s entry.0) (sym same) fits))
                    (λ other. Fits-remove_at i t found other fits))
                sound.held;
          unborn = λ a out.
              ground (arith, sound.unborn a out, tally-remove_at (is_at a) i s.tasks t found);
        })

  pub abandon_task-Sound : (i : ℕ) (s : State D) → Sound s → Sound (abandon_task i s)
  unfolding abandon_task
  abandon_task-Sound i s sound =
      when_some_induction Sound (get_elem? s.tasks i) (λ missing. sound)
        (λ t found.
          if_induction {A = State D} Sound t.cancelled
            (λ gone. record {
              held = All-map s.jobs (λ entry fits. Fits-abandoned i t found gone fits) sound.held;
              unborn = λ a out.
                  ground (arith, sound.unborn a out, tally-remove_at (is_at a) i s.tasks t found);
            })
            (λ kept. sound))

  pub remove_job-Sound : (id : String) (s : State D) → Sound s → Sound (remove_job id s)
  unfolding remove_job persist_state
  remove_job-Sound id s sound =
      when_some_induction Sound (lookup id s.jobs) (λ missing. sound)
        (λ a found. record {
          held =
              All-erase _ _ id s.jobs
                (λ k b other fits. Fits-cancel_named (task_name id) (other_name k id other) fits)
                sound.held;
          unborn = λ b out.
              ground (arith, sound.unborn b out, tally-cancel_named b (task_name id) s.tasks);
        })

  pub begin_stop-Sound : (s : State D) → Sound s → Sound (begin_stop s)
  unfolding begin_stop
  begin_stop-Sound s sound =
      if_induction {A = State D} Sound s.running
        (λ on. record {
          held = All-map s.jobs (λ entry fits. Fits-stopping fits) sound.held;
          unborn = λ b out. ground (arith, sound.unborn b out, tally-cancel b s.tasks);
        })
        (λ off. sound)
