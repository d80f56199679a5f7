-- ===== src/Evolution/Rounds.antt =====
-- The rounds of `cycle` keep the cap on the depth of questions.
use swaybot.Prelude.{
  ℕ, zero, suc, arith, String, ◌||◌, Option, List, ◌==◌, string_eq, when_some_induction,
  if_induction,
}
use swaybot.Prelude.Float.{Floats}
use swaybot.Memory.Steps.{Step, content}
use swaybot.Memory.Store.{Store}
use swaybot.Evolution.Questions.{question}
use swaybot.Evolution.Protocol.{Texts, Protocol, Verdict, Run}
use swaybot.Evolution.Director.{
  Explorer, Limits, Event, record_conjecture, record_experiment, summary_of, conclude, prepare,
  round, rounds, chosen, cycle, design_experiment,
}
use swaybot.Evolution.Weighing.{delta_of, update_conjecture}
use swaybot.Evolution.Questions.{open_candidates}
use swaybot.Evolution.Depths.{
  Shallow, add-Shallow, weigh-Shallow, set_status-Shallow, decompose-Shallow,
}

module _ {F W : Type 0} (fl : Floats F) (words : String → List String) (clean : String → String)
    (texts : Texts) (explorer : Explorer F W) (limits : Limits) where
  conclude-Shallow :
      (entry : Step F) (plan : Protocol) (run : Run) (verdict : Verdict) (s : Store F) (w : W)
      → Shallow limits.max_depth s
      → Shallow limits.max_depth
          (conclude fl words clean texts explorer limits entry plan run verdict s w).1
  unfolding conclude update_conjecture record_experiment
  conclude-Shallow entry plan run verdict s w every =
      let noted : Store F =
        record_experiment fl words clean texts explorer limits (content entry)
          (summary_of fl words clean texts explorer limits run plan verdict) (explorer.now w)
          (update_conjecture fl (content entry) verdict.verdict (explorer.now w) s) in
      let kept : Shallow limits.max_depth noted =
        add-Shallow fl words clean limits.max_depth _ _ (omega arith) (
          weigh-Shallow fl words clean limits.max_depth (content entry) (delta_of verdict.verdict)
            (explorer.now w) s every) in
      if_induction {A = Option Event × Store F × W} (λ result. Shallow limits.max_depth result.1)
        (verdict.verdict == "inconclusive")
        (λ open_still. decompose-Shallow fl words clean texts explorer limits entry noted w kept)
        (λ settled. kept)

  record_conjecture-Shallow :
      (question conjecture where_valid now : String) (s : Store F)
      → Shallow limits.max_depth s
      → Shallow limits.max_depth (
          record_conjecture fl words clean texts explorer limits question conjecture where_valid now
            s)
  unfolding record_conjecture
  record_conjecture-Shallow question conjecture where_valid now s every =
      if_induction (Shallow limits.max_depth) (conjecture == "" || conjecture == question)
        (λ skipped. every)
        (λ kept. add-Shallow fl words clean limits.max_depth _ s (omega arith) every)

  prepare-Shallow :
      (entry : Step F) (s : Store F) (w : W)
      → Shallow limits.max_depth s
      → Shallow limits.max_depth (prepare fl words clean texts explorer limits entry s w).1
  unfolding prepare
  prepare-Shallow entry s w every =
      let designed : Protocol × W =
        design_experiment fl words clean texts explorer limits (content entry) s w in
      set_status-Shallow limits.max_depth (content entry) "testing" _ (
        record_conjecture-Shallow (content entry) designed.0.conjecture designed.0.applicability
          (explorer.now designed.1) s every)

  -- What every run of the agent keeps.
  abbrev RunsKeep : Type 0
  RunsKeep =
      (task hypothesis : String) (s : Store F) (w : W)
      → Shallow limits.max_depth s
      → Shallow limits.max_depth (explorer.run task hypothesis s w).1

  round-Shallow :
      RunsKeep
      → (entry : Step F) (s : Store F) (w : W) → Shallow limits.max_depth s
      → Shallow limits.max_depth (round fl words clean texts explorer limits entry s w).1
  unfolding round
  round-Shallow keep entry s w every =
      conclude-Shallow entry _ _ _ _ _ (keep _ _ _ _ (prepare-Shallow entry s w every))

  rounds-Shallow :
      RunsKeep
      → (n : ℕ) (s : Store F) (w : W) → Shallow limits.max_depth s
      → Shallow limits.max_depth (rounds fl words clean texts explorer limits n s w).1
  unfolding rounds
  rounds-Shallow keep zero s w every = every
  rounds-Shallow keep (suc n) s w every =
      when_some_induction {B = List Event × Store F × W}
        (λ result. Shallow limits.max_depth result.1)
        (chosen fl words clean texts explorer limits (open_candidates fl s)) (λ closed. every)
        (λ entry open_still. rounds-Shallow keep n _ _ (round-Shallow keep entry s w every))

  -- Where the runs of the agent make no entry deeper than `max_depth`, a cycle makes none.
  pub cycle-Shallow :
      ((task hypothesis : String) (s : Store F) (w : W)
        → Shallow limits.max_depth s
        → Shallow limits.max_depth (explorer.run task hypothesis s w).1)
      → (s : Store F) (w : W) → Shallow limits.max_depth s
      → Shallow limits.max_depth (cycle fl words clean texts explorer limits s w).1
  unfolding cycle
  cycle-Shallow keep = rounds-Shallow keep limits.max_runs
