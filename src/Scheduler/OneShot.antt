-- ===== src/Scheduler/OneShot.antt =====
-- Jobs that run once, and runs that outlast `stop`.
use swaybot.Prelude.{
  when_some_induction, if_induction, ℕ, ◌≡◌, refl, sym, subst, ◌∙◌, ap, arith, String, true, false,
  Option, none, some, get_elem?, ◌==◌, string_eq, nat_eq,
}
use swaybot.Prelude.Dict.{lookup, All-lookup}
use swaybot.Scheduler.Job.{
  pos, negsuc, Job, Calendar, one_shot, compute_next_run, at_least, decremented, incremented,
  parse_time, next_instant,
}
use swaybot.Scheduler.Engine.{
  State, Task, write, schedule_run, is_ready, visit, end_stop, finish_task, persist_state,
  reset_counts, settled,
}
use swaybot.Scheduler.Counting.{write_at}
use swaybot.Scheduler.Running.{reset_counts-zero}

some-injective : {A : Type 0} {a b : A} → ◌≡◌ {A = Option A} (some a) (some b) → a ≡ b
some-injective {a = a} same = ap (λ o. elim o [ none ↦ a | some b ↦ b ]) same

module _ {D : Type 0} where
  write_count :
      (heap : ℕ → Job D) (t u : Task) (now : String)
      → t ≡ u
      → (write u.address (settled now (heap u.address)) heap t.address).running_count
        ≡ decremented (heap t.address).running_count
  write_count heap t u now same =
      subst
        (λ v.
          (write v.address (settled now (heap v.address)) heap t.address).running_count
          ≡ decremented (heap t.address).running_count)
        same
        (write_at (λ a job. job.running_count ≡ decremented (heap a).running_count) heap t.address
          t.address (settled now (heap t.address)) (λ here. refl) (λ other. ground (arith, other)))

  finish_task-count :
      (s : State D) (i : ℕ) (t : Task) (now : String)
      → get_elem? s.tasks i ≡ some t
      → ((finish_task i now s).heap t.address).running_count
        ≡ decremented (s.heap t.address).running_count
  unfolding finish_task persist_state
  finish_task-count s i t now found =
      when_some_induction
        (λ (after : State D).
          (after.heap t.address).running_count ≡ decremented (s.heap t.address).running_count)
        (get_elem? s.tasks i) (λ missing. cc (missing, found))
        (λ u same. write_count s.heap t u now (some-injective (sym found ∙ same)))

  end_stop-tasks : (s : State D) → (end_stop s).tasks ≡ s.tasks
  unfolding end_stop persist_state
  end_stop-tasks s = ground arith

  end_stop-zero :
      (s : State D) (k : String) (a : ℕ)
      → s.stopping ≡ true
      → lookup k s.jobs ≡ some a
      → ((end_stop s).heap a).running_count ≡ pos 0
  unfolding end_stop persist_state
  end_stop-zero s k a stopping found =
      if_induction (λ (after : State D). (after.heap a).running_count ≡ pos 0) s.stopping
        (λ stops.
          All-lookup (λ entry. (reset_counts s.jobs s.heap entry.1).running_count ≡ pos 0) k a
            s.jobs found (reset_counts-zero s.jobs s.heap))
        (λ calm. ground (arith, calm, stopping))

  -- A run that `stop` does not wait for, and that ends after it, leaves its registered job the count -1.
  pub finish_task-end_stop :
      (s : State D) (k : String) (i : ℕ) (t : Task) (now : String)
      → s.stopping ≡ true
      → lookup k s.jobs ≡ some t.address
      → get_elem? s.tasks i ≡ some t
      → ((finish_task i now (end_stop s)).heap t.address).running_count ≡ negsuc 0
  finish_task-end_stop s k i t now stopping found running =
      let ended : State D = end_stop s in
      finish_task-count ended i t now (ap (λ ts. get_elem? ts i) (end_stop-tasks s) ∙ running)
      ∙ ap decremented (end_stop-zero s k t.address stopping found)

module _ {T D : Type 0} (calendar : Calendar T D) where
  visit-heap-here :
      (now later : T) (a : ℕ) (s : State D)
      → (s.heap a).schedule ≡ one_shot
      → is_ready calendar now (s.heap a) ≡ true
      → (visit calendar now later a s).0.heap a ≡ (record (s.heap a) {
        running_count = incremented (s.heap a).running_count;
        next_run = some (calendar.isoformat later);
      })
  unfolding visit schedule_run compute_next_run next_instant
  visit-heap-here now later a s once ready = ground (arith, once, ready)

  still_ready :
      (later again : T) (job : Job D)
      → calendar.fromisoformat (calendar.isoformat later) ≡ some later
      → (calendar.isoformat later == "") ≡ false
      → calendar.before again later ≡ false
      → job.enabled ≡ true
      → at_least (incremented job.running_count) job.max_running ≡ false
      → is_ready calendar again (record job {
        running_count = incremented job.running_count;
        next_run = some (calendar.isoformat later);
      })
        ≡ true
  unfolding is_ready parse_time
  still_ready later again job readable written passed on room =
      ground (arith, readable, written, passed, on, room)

  ready-enabled : (now : T) (job : Job D) → is_ready calendar now job ≡ true → job.enabled ≡ true
  unfolding is_ready
  ready-enabled now job ready = ground (arith, ready)

  -- A one-shot job that has just been started is due again at every instant that is not before, if its
  -- limit leaves room for a second run.
  pub visit-is_ready :
      (now later again : T) (a : ℕ) (s : State D)
      → calendar.fromisoformat (calendar.isoformat later) ≡ some later
      → (calendar.isoformat later == "") ≡ false
      → calendar.before again later ≡ false
      → (s.heap a).schedule ≡ one_shot
      → at_least (incremented (s.heap a).running_count) (s.heap a).max_running ≡ false
      → is_ready calendar now (s.heap a) ≡ true
      → is_ready calendar again ((visit calendar now later a s).0.heap a) ≡ true
  visit-is_ready now later again a s readable written passed once room ready =
      ap (is_ready calendar again) (visit-heap-here now later a s once ready)
      ∙ still_ready later again (s.heap a) readable written passed
          (ready-enabled now (s.heap a) ready) room
