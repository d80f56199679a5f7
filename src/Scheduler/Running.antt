-- ===== src/Scheduler/Running.antt =====
-- Starting and stopping the scheduler, adding jobs, and all its steps in any order.
use swaybot.Prelude.{
  ap, All, All-map, All-zip, ◌∙◌, when_some_induction, if_induction, ℕ, suc, ◌≡◌, refl, sym, subst,
  arith, String, Bool, true, false, Option, none, some, List, [], ◌∷◌, if-true, string_eq, nat_eq,
  ◌≤◌, inl, inr, ◌⊎◌,
}
use swaybot.Prelude.Dict.{lookup, All-lookup, All-insert}
use swaybot.Scheduler.Job.{pos, Job, Calendar, compute_next_run}
use swaybot.Scheduler.Engine.{
  Event, adding, removing, running_now, starting, stop_begins, stop_ends, ticking, finishing,
  abandoning, step, steps, new_scheduler, State, Task, Request, write, task_name, persist_state,
  end_stop, reset_counts, start, load_state, restore, restore_at, Saved, add_job, new_job, or_else,
}
use swaybot.Scheduler.Live.{tally, tally-nil, tally-le, is_at, is_doomed, is_misnamed}
use swaybot.Scheduler.Counting.{
  compute-id, compute-running_count, run_job_now-Sound, tick-Sound, Fits, Held, Sound, live,
  write_at,
}
use swaybot.Scheduler.Cancelling.{
  Fits-reset, finish_task-Sound, abandon_task-Sound, remove_job-Sound, begin_stop-Sound,
}

-- A later state of a job: its id stays, and a count of 0.
record Keeps {D : Type 0} (old new : Job D) : Type 0 where
  same_id : new.id ≡ old.id
  same_zero : old.running_count ≡ pos 0 → new.running_count ≡ pos 0

module _ {D : Type 0} where
  Keeps-refl : (job : Job D) → Keeps job job
  Keeps-refl job = record { same_id = refl; same_zero = λ h. h }

  Keeps-trans :
      {first second third : Job D} → Keeps first second → Keeps second third → Keeps first third
  Keeps-trans f g = record {
    same_id = g.same_id ∙ f.same_id;
    same_zero = λ h. g.same_zero (f.same_zero h);
  }

  write-Keeps :
      (heap : ℕ → Job D) (a b : ℕ) (job : Job D)
      → Keeps (heap a) job
      → Keeps (heap b) (write a job heap b)
  write-Keeps heap a b job keeps =
      write_at (λ c. Keeps (heap c)) heap a b job (λ same. keeps) (λ other. Keeps-refl (heap b))

  reset_counts-Keeps :
      (jobs : List (String × ℕ)) (heap : ℕ → Job D) (b : ℕ)
      → Keeps (heap b) (reset_counts jobs heap b)
  unfolding reset_counts
  reset_counts-Keeps [] heap b = Keeps-refl (heap b)
  reset_counts-Keeps ((k, a) ∷ jobs) heap b =
      let zeroed : Job D = record (heap a) { running_count = pos 0 } in
      Keeps-trans (write-Keeps heap a b zeroed (record { same_id = refl; same_zero = λ h. refl }))
        (reset_counts-Keeps jobs (write a zeroed heap) b)

  pub reset_counts-zero :
      (jobs : List (String × ℕ)) (heap : ℕ → Job D)
      → All (λ entry. (reset_counts jobs heap entry.1).running_count ≡ pos 0) jobs
  unfolding reset_counts
  reset_counts-zero [] heap = tt
  reset_counts-zero ((k, a) ∷ jobs) heap =
      let zeroed : Job D = record (heap a) { running_count = pos 0 } in
      let after : ℕ → Job D = write a zeroed heap in
      let keeps : Keeps (after a) (reset_counts jobs after a) = reset_counts-Keeps jobs after a in
      (keeps.same_zero (ground arith), reset_counts-zero jobs after)

  restore_at-Keeps :
      (jobs : List (String × ℕ)) (entry : String × Option Saved) (heap : ℕ → Job D) (b : ℕ)
      → Keeps (heap b) (restore_at jobs entry heap b)
  restore_at-Keeps jobs (id, none) heap b = Keeps-refl (heap b)
  restore_at-Keeps jobs (id, some entry) heap b =
      when_some_induction (λ (later : ℕ → Job D). Keeps (heap b) (later b)) (lookup id jobs)
        (λ missing. Keeps-refl (heap b))
        (λ a found. write-Keeps heap a b _ (record { same_id = refl; same_zero = λ h. refl }))

  restore-Keeps :
      (entries : List (String × Option Saved)) (jobs : List (String × ℕ)) (heap : ℕ → Job D) (b : ℕ)
      → Keeps (heap b) (restore entries jobs heap b)
  unfolding restore
  restore-Keeps [] jobs heap b = Keeps-refl (heap b)
  restore-Keeps (entry ∷ entries) jobs heap b =
      Keeps-trans (restore_at-Keeps jobs entry heap b)
        (restore-Keeps entries jobs (restore_at jobs entry heap) b)

  load_state-Sound :
      (s : State D) → s.tasks ≡ [] → s.stopping ≡ false → Sound s → Sound (load_state s)
  unfolding load_state
  load_state-Sound s idle calm sound =
      when_some_induction Sound s.stored (λ nothing. sound)
        (λ entries e. record {
          held =
              All-map s.jobs
                (λ entry fits.
                  let keeps : Keeps (s.heap entry.1) (restore entries s.jobs s.heap entry.1) =
                    restore-Keeps entries s.jobs s.heap entry.1 in
                  Fits-reset _ idle keeps.same_id
                    (keeps.same_zero
                      (fits.counted calm ∙ ap pos (ap (tally (is_at entry.1)) idle ∙ tally-nil _)))
                    fits)
                sound.held;
          unborn = sound.unborn;
        })

  start-Sound :
      (s : State D)
      → (s.running ≡ true) ⊎ ((s.tasks ≡ []) × (s.stopping ≡ false))
      → Sound s
      → Sound (start s)
  unfolding start
  start-Sound s (inl on) sound = subst Sound (sym (if-true _ _ _ on)) sound
  start-Sound s (inr (idle, calm)) sound =
      if_induction {A = State D} Sound s.running (λ on. sound)
        (λ off.
          let loaded : Sound (load_state s) = load_state-Sound s idle calm sound in
          record { held = loaded.held; unborn = loaded.unborn })

  end_stop-Sound : (s : State D) → s.tasks ≡ [] → Sound s → Sound (end_stop s)
  unfolding end_stop persist_state
  end_stop-Sound s idle sound =
      if_induction {A = State D} Sound s.stopping
        (λ stopping. record {
          held =
              All-zip s.jobs
                (λ entry fits zero_count.
                  let keeps : Keeps (s.heap entry.1) (reset_counts s.jobs s.heap entry.1) =
                    reset_counts-Keeps s.jobs s.heap entry.1 in
                  Fits-reset _ idle keeps.same_id zero_count fits)
                sound.held (reset_counts-zero s.jobs s.heap);
          unborn = sound.unborn;
        })
        (λ calm. sound)

module _ {T D : Type 0} (calendar : Calendar T D) where
  Fits-older :
      {fresh : ℕ} {stopping : Bool} {tasks : List Task} {k : String} {b : ℕ} {job : Job D}
      → Fits fresh stopping tasks k b job
      → Fits (suc fresh) stopping tasks k b job
  Fits-older fits = ground (arith, fits)

  -- A job that was made has no runs yet.
  Fits-new :
      {stopping : Bool} {k : String} {fresh : ℕ} {job : Job D} (tasks : List Task)
      → tally (is_at fresh) tasks ≡ 0
      → job.id ≡ k
      → job.running_count ≡ pos 0
      → Fits (suc fresh) stopping tasks k fresh job
  Fits-new {k = k} {fresh = fresh} tasks idle id count = ground (
    arith,
    idle,
    id,
    count,
    tally-le (is_doomed fresh) (is_at fresh) tasks (λ t both. ground (arith, both)),
    tally-le (is_misnamed (task_name k) fresh) (is_at fresh) tasks (λ t both. ground (arith, both)),
  )

  add_job-Sound :
      (request : Request D) (uuid : String) (now : T) (s : State D)
      → Sound s
      → Sound (add_job calendar request uuid now s).0
  unfolding add_job
  add_job-Sound request uuid now s sound =
      let id : String = or_else request.job_id uuid in
      let made : Job D = new_job request id in
      let job : Job D = (compute_next_run calendar now made).0 in
      when_some_induction {B = State D × Option String} (λ result. Sound result.0)
        (compute_next_run calendar now made).1
        (λ fine. record {
          held =
              All-insert _ id s.fresh s.jobs
                (write_at (Fits (suc s.fresh) s.stopping s.tasks id) s.heap s.fresh s.fresh job
                  (λ same.
                    Fits-new s.tasks (sound.unborn s.fresh (omega arith))
                      (compute-id calendar now made) (compute-running_count calendar now made))
                  (λ other. ground (arith, other)))
                (All-map s.jobs
                  (λ entry fits.
                    write_at (Fits (suc s.fresh) s.stopping s.tasks entry.0) s.heap s.fresh entry.1
                      job (λ same. ground (arith, same, fits.placed)) (λ other. Fits-older fits))
                  sound.held);
          unborn = λ b out. sound.unborn b (omega (arith, out));
        })
        (λ raised e. sound)

  -- `start` finds no run and no `stop` under way, or the scheduler started; `stop` ends after the runs.
  abbrev pub Calm : Event T D → State D → Type 0
  Calm starting s = (s.running ≡ true) ⊎ ((s.tasks ≡ []) × (s.stopping ≡ false))
  Calm stop_ends s = s.tasks ≡ []
  Calm _ s = Unit

  abbrev pub AllCalm : List (Event T D) → State D → Type 0
  AllCalm [] s = Unit
  AllCalm (e ∷ es) s = Calm e s × AllCalm es (step calendar e s)

  step-Sound : (e : Event T D) (s : State D) → Calm e s → Sound s → Sound (step calendar e s)
  unfolding step
  step-Sound (adding request uuid now) s calm = add_job-Sound request uuid now s
  step-Sound (removing id) s calm = remove_job-Sound id s
  step-Sound (running_now id) s calm = run_job_now-Sound id s
  step-Sound starting s calm = start-Sound s calm
  step-Sound stop_begins s calm = begin_stop-Sound s
  step-Sound stop_ends s calm = end_stop-Sound s calm
  step-Sound (ticking now clock) s calm = tick-Sound calendar now clock s
  step-Sound (finishing i now) s calm = finish_task-Sound i now s
  step-Sound (abandoning i) s calm = abandon_task-Sound i s

  steps-Sound :
      (es : List (Event T D)) (s : State D) → AllCalm es s → Sound s → Sound (steps calendar es s)
  unfolding steps
  steps-Sound [] s calm sound = sound
  steps-Sound (e ∷ es) s (calm, all_calm) sound =
      steps-Sound es (step calendar e s) all_calm (step-Sound e s calm sound)

  -- After any steps of a new scheduler, where `start` finds no run left over from before and `stop`
  -- outlasts the runs, the running count of each registered job is the number of its runs, which is
  -- within `max_running`, while no `stop` is under way.
  pub running_count-steps :
      (es : List (Event T D)) (heap : ℕ → Job D) (stored : Option (List (String × Option Saved)))
      (k : String) (a : ℕ)
      → AllCalm es (new_scheduler heap stored)
      → lookup k (steps calendar es (new_scheduler heap stored)).jobs ≡ some a
      → (steps calendar es (new_scheduler heap stored)).stopping ≡ false
      → (((steps calendar es (new_scheduler heap stored)).heap a).running_count
          ≡ pos (live a (steps calendar es (new_scheduler heap stored))))
        × (live a (steps calendar es (new_scheduler heap stored))
            ≤ ((steps calendar es (new_scheduler heap stored)).heap a).max_running)
  running_count-steps es heap stored k a calm found going =
      let sound : Sound (steps calendar es (new_scheduler heap stored)) =
        steps-Sound es _ calm (record { held = tt; unborn = λ b out. tally-nil _ }) in
      let fits : Held (steps calendar es (new_scheduler heap stored)) k a =
        All-lookup _ k a _ found sound.held in
      (fits.counted going, fits.capped going)
