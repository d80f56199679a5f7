-- ===== src/Scheduler/Counting.antt =====
-- The running counts of the scheduler: what holds of a registered job, and that starting, adding and
-- ending runs keep it.
use swaybot.Prelude.{
  ◌∙◌, ◌||◌, when_some_induction, if_induction, All, All-map, ℕ, ◌≡◌, refl, sym, subst, arith,
  String, Bool, true, false, not, Option, List, [], ◌∷◌, ◌++◌, if-true, if-false, ◌==◌, string_eq,
  nat_eq, eq_iff, ◌≤◌, ◌<◌, Bool-cases, inl, inr,
}
use swaybot.Prelude.Dict.{lookup, All-lookup}
use swaybot.Scheduler.Job.{pos, Job, Calendar, at_least, incremented, compute_next_run}
use swaybot.Scheduler.Engine.{
  State, Task, write, task_name, new_task, schedule_run, visit, sweep, tick, is_ready, run_job_now,
}
use swaybot.Scheduler.Live.{tally, is_at, is_doomed, is_misnamed, tally-snoc}

-- The runs of the job at `a` that are not over.
abbrev pub live : {D : Type 0} → ℕ → State D → ℕ
live a s = tally (is_at a) s.tasks

-- What holds of a registered job: its id is its key, and unless a `stop` is under way its count is that
-- of its runs, which are within its limit and not cancelled.
pub record Fits {D : Type 0} (fresh : ℕ) (stopping : Bool) (tasks : List Task) (k : String) (a : ℕ)
    (job : Job D) : Type 0 where
  pub placed : a < fresh
  pub identified : job.id ≡ k
  pub named : tally (is_misnamed (task_name k) a) tasks ≡ 0
  pub counted : stopping ≡ false → job.running_count ≡ pos (tally (is_at a) tasks)
  pub capped : stopping ≡ false → tally (is_at a) tasks ≤ job.max_running
  pub spared : stopping ≡ false → tally (is_doomed a) tasks ≡ 0

abbrev pub Held : {D : Type 0} → State D → String → ℕ → Type 0
Held s k a = Fits s.fresh s.stopping s.tasks k a (s.heap a)

-- What holds of every entry of a list of jobs, and of the addresses that are not given out.
pub record Good {D : Type 0} (listed : List (String × ℕ)) (s : State D) : Type 0 where
  pub held : All (λ entry. Held s entry.0 entry.1) listed
  pub unborn : (a : ℕ) → s.fresh ≤ a → live a s ≡ 0

-- A scheduler whose registered jobs are as they should be.
abbrev pub Sound : {D : Type 0} → State D → Type 0
Sound s = Good s.jobs s

pub write_at :
    {D : Type 0} (P : ℕ → Job D → Type 0) (heap : ℕ → Job D) (a b : ℕ) (job : Job D)
    → (a ≡ b → P a job)
    → ((a == b) ≡ false → P b (heap b))
    → P b (write a job heap b)
write_at P heap a b job here elsewhere = elim (Bool-cases (a == b)) [
  | inl e ↦
      let same : a ≡ b = ground (arith, e) in
      subst (P b) (sym (if-true _ job (heap b) e)) (subst (λ c. P c job) same (here same))
  | inr e ↦ subst (P b) (sym (if-false _ job (heap b) e)) (elsewhere e)
]

module _ {D : Type 0} {fresh : ℕ} {stopping : Bool} {tasks : List Task} where
  -- A task of another job changes nothing for this one.
  pub Fits-snoc :
      {k : String} {b : ℕ} {job : Job D} (t : Task)
      → (t.address == b) ≡ false
      → Fits fresh stopping tasks k b job
      → Fits fresh stopping (tasks ++ t ∷ []) k b job
  Fits-snoc {k = k} {b = b} t other fits = ground (
    arith,
    other,
    fits,
    tally-snoc (is_at b) tasks t,
    tally-snoc (is_doomed b) tasks t,
    tally-snoc (is_misnamed (task_name k) b) tasks t,
  )

  -- One more run of a job below its limit.
  pub Fits-incremented :
      {k : String} {a : ℕ} (job : Job D)
      → at_least job.running_count job.max_running ≡ false
      → Fits fresh stopping tasks k a job
      → Fits fresh stopping
          (tasks ++ new_task a job.id ∷ [])
          k
          a
          (record job { running_count = incremented job.running_count })
  Fits-incremented {k = k} {a = a} job below fits = ground (
    arith,
    fits,
    below,
    eq_iff (task_name job.id) (task_name k),
    tally-snoc (is_at a) tasks (new_task a job.id),
    tally-snoc (is_doomed a) tasks (new_task a job.id),
    tally-snoc (is_misnamed (task_name k) a) tasks (new_task a job.id),
  )

  -- Only the id, the limit and the count matter.
  pub Fits-like :
      {k : String} {a : ℕ} {job : Job D} (other : Job D)
      → other.id ≡ job.id
      → other.max_running ≡ job.max_running
      → other.running_count ≡ job.running_count
      → Fits fresh stopping tasks k a job
      → Fits fresh stopping tasks k a other
  Fits-like other id limit count fits = ground (arith, fits)

module _ {D : Type 0} where
  schedule_run-Held :
      (s : State D) (k : String) (a b : ℕ)
      → at_least (s.heap a).running_count (s.heap a).max_running ≡ false
      → Held s k b
      → Held (schedule_run a s) k b
  unfolding schedule_run
  schedule_run-Held s k a b below at_b =
      write_at (Fits s.fresh s.stopping (s.tasks ++ new_task a (s.heap a).id ∷ []) k) s.heap a b _
        (λ same. Fits-incremented (s.heap a) below (subst (Held s k) (sym same) at_b))
        (λ other. Fits-snoc _ other at_b)

  schedule_run-unborn :
      (s : State D) (a b : ℕ)
      → a < s.fresh
      → s.fresh ≤ b
      → live b s ≡ 0
      → live b (schedule_run a s) ≡ 0
  unfolding schedule_run
  schedule_run-unborn s a b born out none_live =
      ground (arith, none_live, tally-snoc (is_at b) s.tasks (new_task a (s.heap a).id))

  schedule_run-Good :
      (s : State D) (listed : List (String × ℕ)) (a : ℕ)
      → at_least (s.heap a).running_count (s.heap a).max_running ≡ false
      → a < s.fresh
      → Good listed s
      → Good listed (schedule_run a s)
  unfolding schedule_run
  schedule_run-Good s listed a below born good = record {
    held =
        All-map listed (λ entry fits. schedule_run-Held s entry.0 a entry.1 below fits) good.held;
    unborn = λ b out. schedule_run-unborn s a b born out (good.unborn b out);
  }

  schedule_run-Sound :
      (s : State D) (a : ℕ)
      → at_least (s.heap a).running_count (s.heap a).max_running ≡ false
      → a < s.fresh
      → Sound s
      → Sound (schedule_run a s)
  unfolding schedule_run
  schedule_run-Sound s a = schedule_run-Good s s.jobs a

  -- Replacing a job by one with its id, limit and count.
  pub write-Good :
      (s : State D) (listed : List (String × ℕ)) (a : ℕ) (job : Job D)
      → job.id ≡ (s.heap a).id
      → job.max_running ≡ (s.heap a).max_running
      → job.running_count ≡ (s.heap a).running_count
      → Good listed s
      → Good listed (record s { heap = write a job s.heap })
  write-Good s listed a job id limit count good = record {
    held =
        All-map listed
          (λ entry fits.
            write_at (Fits s.fresh s.stopping s.tasks entry.0) s.heap a entry.1 job
              (λ same. Fits-like job id limit count (subst (Held s entry.0) (sym same) fits))
              (λ other. fits))
          good.held;
    unborn = good.unborn;
  }

  pub run_job_now-Sound : (id : String) (s : State D) → Sound s → Sound (run_job_now id s)
  unfolding run_job_now
  run_job_now-Sound id s sound =
      when_some_induction Sound (lookup id s.jobs) (λ missing. sound)
        (λ a found.
          if_induction {A = State D} Sound
            (not (s.heap a).enabled || at_least (s.heap a).running_count (s.heap a).max_running)
            (λ blocked. sound)
            (λ free.
              let at_a : Held s id a = All-lookup _ id a s.jobs found sound.held in
              schedule_run-Sound s a (ground (arith, free)) at_a.placed sound))

rest_of :
    {D : Type 0} {k : String} {a : ℕ} {rest : List (String × ℕ)} {s : State D}
    → Good ((k, a) ∷ rest) s
    → Good rest s
rest_of good = record { held = good.held.1; unborn = good.unborn }

module _ {T D : Type 0} (calendar : Calendar T D) where
  ready-below :
      (now : T) (job : Job D)
      → is_ready calendar now job ≡ true
      → at_least job.running_count job.max_running ≡ false
  unfolding is_ready
  ready-below now job ready = ground (arith, ready)

  pub compute-id : (now : T) (job : Job D) → (compute_next_run calendar now job).0.id ≡ job.id
  unfolding compute_next_run
  compute-id now job = ground arith

  pub compute-max_running :
      (now : T) (job : Job D) → (compute_next_run calendar now job).0.max_running ≡ job.max_running
  unfolding compute_next_run
  compute-max_running now job = ground arith

  pub compute-running_count :
      (now : T) (job : Job D)
      → (compute_next_run calendar now job).0.running_count ≡ job.running_count
  unfolding compute_next_run
  compute-running_count now job = ground arith

  visit-Good :
      (now later : T) (k : String) (a : ℕ) (listed : List (String × ℕ)) (s : State D)
      → Held s k a
      → Good listed s
      → Good listed (visit calendar now later a s).0
  unfolding visit
  visit-Good now later k a listed s at_a good =
      if_induction {A = State D × Option String} (λ result. Good listed result.0)
        (is_ready calendar now (s.heap a))
        (λ ready.
          write-Good (schedule_run a s) listed a _ (compute-id later ((schedule_run a s).heap a))
            (compute-max_running later ((schedule_run a s).heap a))
            (compute-running_count later ((schedule_run a s).heap a))
            (schedule_run-Good s listed a (ready-below now (s.heap a) ready) at_a.placed good))
        (λ idle. good)

  sweep-Good :
      (now : T) (clock : ℕ → T) (rest listed : List (String × ℕ)) (s : State D)
      → Good rest s
      → Good listed s
      → Good listed (sweep calendar now clock rest s).0
  unfolding sweep
  sweep-Good now clock [] listed s of_rest good = good
  sweep-Good now clock ((k, a) ∷ rest) listed s of_rest good =
      let at_a : Held s k a = of_rest.held.0 in
      let after : State D = (visit calendar now (clock a) a s).0 in
      let go : (others : List (String × ℕ)) → Good others s → Good others after =
        λ others. visit-Good now (clock a) k a others s at_a in
      when_some_induction {B = State D × Option String} (λ result. Good listed result.0)
        (visit calendar now (clock a) a s).1
        (λ fine.
          sweep-Good now clock rest listed after (go rest (rest_of of_rest)) (go listed good))
        (λ raised e. go listed good)

  visit-jobs :
      (now later : T) (a : ℕ) (s : State D) → (visit calendar now later a s).0.jobs ≡ s.jobs
  unfolding visit schedule_run
  visit-jobs now later a s = ground arith

  sweep-jobs :
      (now : T) (clock : ℕ → T) (rest : List (String × ℕ)) (s : State D)
      → (sweep calendar now clock rest s).0.jobs ≡ s.jobs
  unfolding sweep
  sweep-jobs now clock [] s = refl
  sweep-jobs now clock ((k, a) ∷ rest) s =
      let after : State D = (visit calendar now (clock a) a s).0 in
      let kept : after.jobs ≡ s.jobs = visit-jobs now (clock a) a s in
      when_some_induction {B = State D × Option String} (λ result. result.0.jobs ≡ s.jobs)
        (visit calendar now (clock a) a s).1 (λ fine. sweep-jobs now clock rest after ∙ kept)
        (λ raised e. kept)

  pub tick-Sound :
      (now : T) (clock : ℕ → T) (s : State D) → Sound s → Sound (tick calendar now clock s).0
  unfolding tick
  tick-Sound now clock s sound =
      if_induction {A = State D × Option String} (λ result. Sound result.0) s.running
        (λ on.
          let awake : State D = record s { wake = false } in
          let same_jobs : (sweep calendar now clock s.jobs awake).0.jobs ≡ s.jobs =
            sweep-jobs now clock s.jobs awake in
          let same_sound : Sound awake = record { held = sound.held; unborn = sound.unborn } in
          subst (λ jobs. Good jobs (sweep calendar now clock s.jobs awake).0) (sym same_jobs)
            (sweep-Good now clock s.jobs s.jobs awake same_sound same_sound))
        (λ off. sound)
