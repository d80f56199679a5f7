-- ===== src/Scheduler/Due.antt =====
-- A pass of the scheduler's loop starts what is due.
use swaybot.Prelude.{
  when_some_induction, if_induction, ℕ, suc, ◌≡◌, ◌≢◌, sym, subst, ◌∙◌, ap, arith, String, true,
  false, Option, none, some, List, [], ◌∷◌, ◌==◌, string_eq, nat_eq, ◌≤◌, inl, inr, ◌⊎◌,
}
use swaybot.Prelude.Dict.{lookup}
use swaybot.Scheduler.Job.{Calendar}
use swaybot.Scheduler.Engine.{State, new_task, schedule_run, is_ready, visit, sweep, tick}
use swaybot.Scheduler.Live.{is_at, tally-snoc}
use swaybot.Scheduler.Counting.{live}

lookup-nil-some : {V : Type 0} (k : String) {v : V} → lookup k [] ≢ some v
unfolding lookup
lookup-nil-some k found = ground (arith, found)

module _ {T D : Type 0} (calendar : Calendar T D) where
  visit-live-le :
      (now later : T) (a b : ℕ) (s : State D) → live b s ≤ live b (visit calendar now later a s).0
  unfolding visit schedule_run
  visit-live-le now later a b s =
      ground (arith, tally-snoc (is_at b) s.tasks (new_task a (s.heap a).id))

  visit-live :
      (now later : T) (a : ℕ) (s : State D)
      → is_ready calendar now (s.heap a) ≡ true
      → suc (live a s) ≤ live a (visit calendar now later a s).0
  unfolding visit schedule_run
  visit-live now later a s ready =
      ground (arith, ready, tally-snoc (is_at a) s.tasks (new_task a (s.heap a).id))

  visit-live-at :
      (now later : T) (a b : ℕ) (s : State D)
      → a ≡ b
      → is_ready calendar now (s.heap b) ≡ true
      → suc (live b s) ≤ live b (visit calendar now later a s).0
  visit-live-at now later a b s same ready =
      subst (λ c. suc (live b s) ≤ live b (visit calendar now later c s).0) (sym same)
        (visit-live now later b s ready)

  -- A visit changes its own job only.
  visit-heap :
      (now later : T) (a b : ℕ) (s : State D)
      → (a == b) ≡ false
      → (visit calendar now later a s).0.heap b ≡ s.heap b
  unfolding visit schedule_run
  visit-heap now later a b s other = ground (arith, other)

  sweep-live-le :
      (now : T) (clock : ℕ → T) (rest : List (String × ℕ)) (b : ℕ) (s : State D)
      → live b s ≤ live b (sweep calendar now clock rest s).0
  unfolding sweep
  sweep-live-le now clock [] b s = omega arith
  sweep-live-le now clock ((k, a) ∷ rest) b s =
      let after : State D = (visit calendar now (clock a) a s).0 in
      when_some_induction {B = State D × Option String} (λ result. live b s ≤ live b result.0)
        (visit calendar now (clock a) a s).1
        (λ fine.
          omega (arith, sweep-live-le now clock rest b after, visit-live-le now (clock a) a b s))
        (λ raised e. visit-live-le now (clock a) a b s)

  head_or_rest :
      (k j : String) (a b : ℕ) (rest : List (String × ℕ))
      → lookup k ((j, a) ∷ rest) ≡ some b
      → (a ≡ b) ⊎ ((a == b) ≡ false) × (lookup k rest ≡ some b)
  unfolding lookup
  head_or_rest k j a b rest found = ground (arith, found)

  sweep-live :
      (now : T) (clock : ℕ → T) (k : String) (b : ℕ) (rest : List (String × ℕ)) (s : State D)
      → lookup k rest ≡ some b
      → is_ready calendar now (s.heap b) ≡ true
      → (sweep calendar now clock rest s).1 ≡ none
      → suc (live b s) ≤ live b (sweep calendar now clock rest s).0
  unfolding sweep
  sweep-live now clock k b [] s found ready = absurd (lookup-nil-some k found)
  sweep-live now clock k b ((j, a) ∷ rest) s found ready =
      let after : State D = (visit calendar now (clock a) a s).0 in
      when_some_induction {B = State D × Option String}
        (λ result. result.1 ≡ none → suc (live b s) ≤ live b result.0)
        (visit calendar now (clock a) a s).1
        (λ passed fine. elim (head_or_rest k j a b rest found) [
          | inl same ↦ omega (
            arith,
            sweep-live-le now clock rest b after,
            visit-live-at now (clock a) a b s same ready,
          )
          | inr (other, further) ↦ omega (
            arith,
            visit-live-le now (clock a) a b s,
            sweep-live now clock k b rest after further
                (ap (is_ready calendar now) (visit-heap now (clock a) a b s other) ∙ ready) fine,
          )
        ])
        (λ raised e fine. cc (e, fine))

  -- A pass of a started scheduler that nothing interrupts starts a run of each registered job that is
  -- enabled, below its limit and due.
  pub tick-starts :
      (now : T) (clock : ℕ → T) (k : String) (b : ℕ) (s : State D)
      → s.running ≡ true
      → lookup k s.jobs ≡ some b
      → is_ready calendar now (s.heap b) ≡ true
      → (tick calendar now clock s).1 ≡ none
      → suc (live b s) ≤ live b (tick calendar now clock s).0
  unfolding tick
  tick-starts now clock k b s on found ready =
      if_induction {A = State D × Option String}
        (λ result. result.1 ≡ none → suc (live b s) ≤ live b result.0) s.running
        (λ started. sweep-live now clock k b s.jobs (record s { wake = false }) found ready)
        (λ off fine. ground (arith, on, off))
