-- ===== src/Evolution/Director.antt =====
-- `SelfEvolutionDirector` of swaybot/evolution.py, over an agent with a memory (without one it does
-- nothing). Runs of the agent and answers of the brain act on a world `W`; a brain that raises, or that
-- takes too long, has the answer "".
use Prim.Native.String.{count}
use swaybot.Prelude.{
  ℕ, zero, suc, ◌+◌, String, ◌||◌, Option, none, some, List, [], ◌∷◌, ◌++◌, map, leb, ltb, ◌==◌,
  string_eq, filter, if◌then◌else◌, when_some, take, length,
}
use mathlib.Core.List.{reverse}
use swaybot.Prelude.Text.{◌⧺◌, cut, join}
use swaybot.Prelude.Float.{Floats}
use swaybot.Json.{Value, Fields, Items, obj, arr, nil, cons, field_of, names_of}
use swaybot.Memory.Steps.{Step, content}
use swaybot.Memory.Store.{Store, add}
use swaybot.Memory.Queries.{query}
use swaybot.Evolution.Questions.{depth, relation_of, set_status, open_candidates, question, finding}
use swaybot.Evolution.Protocol.{
  Texts, Prompt, design, adjudicate, split, Run, Protocol, Verdict, is_complete, parse_json_object,
  protocol_of, trace_line, verdict_of,
}
use swaybot.Evolution.Weighing.{update_conjecture}

-- The agent: its brain, its runs, the sorted names of its tools, and the clock.
pub record Explorer (F W : Type 0) : Type 0 where
  pub ask : Prompt → W → String × W
  pub run : String → String → Store F → W → Run × Store F × W
  pub tools : List String
  pub now : W → String

pub record Limits : Type 0 where
  pub min_open : ℕ
  pub max_runs : ℕ
  pub max_depth : ℕ

pub data Event : Type 0 where
  exploration_begin : String → String → Event
  experiment_designed experiment_recorded sub_questions_added exploration_end : String → Event

-- `sub_event`, where there is one.
abbrev pub listed : Option Event → List Event
listed none = []
listed (some event) = event ∷ []

-- `f"{value}"` of an optional text, and `value or other`.
abbrev pub shown_reason : Option String → String
shown_reason none = "None"
shown_reason (some reason) = reason

abbrev pub reason_or : String → Option String → String
reason_or other none = other
reason_or other (some reason) = if reason == "" then other else reason

-- What the loop over `parsed.get("sub_questions") or []` sees, as texts. The characters of a text are
-- too short to count; over a number or `true` Python raises.
abbrev pub shown_items : (Value → String) → Items → List String
shown_items shown nil = []
shown_items shown (cons v vs) = shown v ∷ shown_items shown vs

abbrev pub iterated : (Value → String) → Option Value → List String
iterated shown (some (arr vs)) = shown_items shown vs
iterated shown (some (obj fs)) = names_of fs
iterated shown _ = []

-- The sharper questions in an answer: stripped, of more than 4 characters, at most 3.
unfoldable pub sub_questions : Texts → Option Fields → List String
sub_questions texts none = []
sub_questions texts (some fs) = take 3 (
    filter (λ text. ltb 4 (count text))
      (map texts.strip (iterated texts.shown (field_of "sub_questions" fs))))

module _ {F W : Type 0} (fl : Floats F) (words : String → List String) (clean : String → String)
    (texts : Texts) (explorer : Explorer F W) (limits : Limits) where
  abbrev pub remember : Step F → Store F → Store F
  remember = add fl words clean

  -- `_record_conjecture`
  unfoldable pub record_conjecture : String → String → String → String → Store F → Store F
  record_conjecture question conjecture applicability now s =
      if conjecture == "" || conjecture == question
      then s
      else remember (finding fl "conjecture" conjecture (fl.lit 3) question applicability now) s

  -- The contents of the prior experiments on a question.
  abbrev pub prior_experiments : String → Store F → List String
  prior_experiments hypothesis s =
      map (λ m. cut 150 (content m))
        (filter (λ m. relation_of m.body == hypothesis)
          (query fl "" "experiment" "long_term" none 10 s.memories))

  -- `_design_experiment`: asks again once.
  unfoldable pub design_experiment : String → Store F → W → Protocol × W
  design_experiment hypothesis s w =
      let prompt = design hypothesis (prior_experiments hypothesis s) explorer.tools in
      let first = explorer.ask prompt w in
      let second = explorer.ask prompt first.1 in
      if is_complete (parse_json_object texts first.0)
      then (protocol_of texts hypothesis (parse_json_object texts first.0), first.1)
      else (protocol_of texts hypothesis (parse_json_object texts second.0), second.1)

  -- `_adjudicate`
  unfoldable pub adjudicate_run : Protocol → Run → W → Verdict × W
  adjudicate_run plan run w =
      let trace = join "\n" (map (trace_line texts) run.history) in
      let answer = explorer.ask (adjudicate plan.criteria trace) w in
      (verdict_of texts (parse_json_object texts answer.0) (reverse run.history), answer.1)

  -- `_record_experiment`: the summary, and the memory with the record.
  abbrev pub summary_of : Run → Protocol → Verdict → String
  summary_of run plan verdict =
      "outcome="
      ⧺ shown_reason run.stop_reason
      ⧺ ", verdict="
      ⧺ verdict.verdict
      ⧺ ", steps="
      ⧺ texts.decimal (length run.history)
      ⧺ (if plan.method == "" then "" else ", method=" ⧺ cut 120 plan.method)
      ⧺ (if verdict.evidence == "" then "" else ", evidence=" ⧺ cut 160 verdict.evidence)

  unfoldable pub record_experiment : String → String → String → Store F → Store F
  record_experiment hypothesis summary now s =
      remember
        (finding fl "experiment" ("Experiment on '" ⧺ hypothesis ⧺ "': " ⧺ summary) (fl.lit 5)
          hypothesis "" now)
        s

  -- The sub-questions of a parent, one below its depth.
  unfoldable pub add_questions : List String → String → ℕ → String → Store F → Store F
  add_questions [] parent deep now s = s
  add_questions (text ∷ more) parent deep now s =
      add_questions more parent deep now (remember (question fl text parent deep now) s)

  -- What `_decompose` does with the sub-questions of the answer.
  unfoldable pub decomposed : Step F → List String → String → Store F → Option Event × Store F
  decomposed entry [] now s = (none, s)
  decomposed entry (first ∷ others) now s = (
    some (sub_questions_added (content entry)),
    set_status (content entry) "decomposed"
        (add_questions (first ∷ others) (content entry) (depth entry + 1) now s),
  )

  -- `_decompose`
  unfoldable pub decompose : Step F → Store F → W → Option Event × Store F × W
  decompose entry s w =
      let answer = explorer.ask (split (content entry)) w in
      let result =
        decomposed entry (sub_questions texts (parse_json_object texts answer.0))
          (explorer.now answer.1) s in
      if leb limits.max_depth (depth entry) then (none, s, w) else (result.0, result.1, answer.1)

  -- The end of a round: the record, the verdict's weight, and the decomposition.
  unfoldable pub conclude :
      Step F → Protocol → Run → Verdict → Store F → W → List Event × Store F × W
  conclude entry plan run verdict s w =
      let hypothesis = content entry in
      let summary = summary_of run plan verdict in
      let weighed = update_conjecture fl hypothesis verdict.verdict (explorer.now w) s in
      let noted = record_experiment hypothesis summary (explorer.now w) weighed in
      let after =
        (if verdict.verdict == "inconclusive" then decompose entry noted w else (none, noted, w)) in
      let status = reason_or "unknown" run.stop_reason ⧺ "/" ⧺ verdict.verdict in
      (
        experiment_recorded summary ∷ listed after.0 ++ exploration_end status ∷ [],
        after.1,
        after.2,
      )

  -- The begin of a round: the protocol, and the memory in which it is recorded.
  unfoldable pub prepare : Step F → Store F → W → Protocol × Store F × W
  prepare entry s w =
      let hypothesis = content entry in
      let designed = design_experiment hypothesis s w in
      let plan = designed.0 in
      (
        plan,
        set_status hypothesis "testing" (
            record_conjecture hypothesis plan.conjecture plan.applicability
              (explorer.now designed.1) s),
        designed.1,
      )

  -- One round of `cycle`.
  unfoldable pub round : Step F → Store F → W → List Event × Store F × W
  round entry s w =
      let (plan, s1, w1) = prepare entry s w in
      let (run, s2, w2) = explorer.run plan.task (content entry) s1 w1 in
      let (verdict, w3) = adjudicate_run plan run w2 in
      let (events, s4, w4) = conclude entry plan run verdict s2 w3 in
      (
        exploration_begin (content entry) plan.task ∷ experiment_designed plan.conjecture ∷ events,
        s4,
        w4,
      )

  -- The candidate that a round takes: the first, if there are enough.
  unfoldable pub chosen : List (Step F) → Option (Step F)
  chosen [] = none
  chosen (entry ∷ others) = if ltb (suc (length others)) limits.min_open then none else some entry

  -- The loop of `cycle`, for `n` more rounds. (With a `min_open` of 0 Python raises where nothing is open.)
  unfoldable pub rounds : ℕ → Store F → W → List Event × Store F × W
  rounds zero s w = ([], s, w)
  rounds (suc n) s w =
      when_some (chosen (open_candidates fl s)) ([], s, w)
        (λ entry.
          let (events, s1, w1) = round entry s w in
          let (more, s2, w2) = rounds n s1 w1 in (events ++ more, s2, w2))

  -- `cycle`
  unfoldable pub cycle : Store F → W → List Event × Store F × W
  cycle = rounds limits.max_runs
