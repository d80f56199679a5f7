-- ===== src/Evolution/Protocol.antt =====
-- `_parse_json_object`, `_design_experiment` and `_adjudicate` of swaybot/evolution.py, with
-- `strip_markdown_fences` of swaybot/parsing.py. The fixed wording of a prompt is a constructor.

use swaybot.Prelude.{
  ℕ, zero, suc, ◌+◌, ◌-◌, String, Bool, true, false, not, ◌&&◌, ◌||◌, Option, none, some, List, [],
  ◌∷◌, leb, ◌==◌, string_eq, nat_eq, if◌then◌else◌, elem,
}
use swaybot.Prelude.Text.{◌⧺◌, cut, join, starts_with}
use swaybot.Json.{
  Value, Fields, null, bool, int, float, str, obj, arr, nil, cons, end, field, field_of,
}
use swaybot.LoopGuards.Repeat.{Action}
use swaybot.Agent.Environment.{Entry}

-- What Python's texts and `json` do: `loads` gives no value where it raises ValueError, `find` and `rfind`
-- none for -1, `shown` is `str(value)`, `shown_action` the `str` of a dictionary.
pub record Texts : Type 0 where
  pub strip : String → String
  pub lower : String → String
  pub splitlines : String → List String
  pub mentions : String → String → Bool
  pub find : String → String → Option ℕ
  pub rfind : String → String → Option ℕ
  pub loads : String → Option Value
  pub shown : Value → String
  pub shown_action : Action → String
  pub decimal : ℕ → String
  pub strip_marks : String → String
  pub split_seed : String → List String

pub data Prompt : Type 0 where
  -- hypothesis, prior experiments, tools
  design : String → List String → List String → Prompt
  -- criteria, trace
  adjudicate : String → String → Prompt
  split : String → Prompt
  wonder dream : String → Prompt

-- The history and the stop reason of a run, as texts.
pub record Run : Type 0 where
  pub history : List Entry
  pub stop_reason : Option String

pub record Protocol : Type 0 where
  pub conjecture : String
  pub method : String
  pub criteria : String
  pub applicability : String
  pub task : String

pub record Verdict : Type 0 where
  pub verdict : String
  pub evidence : String

-- `s[n:]`
unfoldable pub skip : ℕ → String → String
skip zero s = s
skip (suc n) String.[] = String.[]
skip (suc n) (String.◌∷◌ c s) = skip n s

-- `lines[:-1]` if the last line opens a fence.
unfoldable pub drop_last_fence : List String → List String
unfolding starts_with
drop_last_fence [] = []
drop_last_fence (line ∷ []) = if starts_with line "```" then [] else line ∷ []
drop_last_fence (line ∷ next ∷ lines) = line ∷ drop_last_fence (next ∷ lines)

abbrev pub drop_first_fence : List String → List String
drop_first_fence [] = []
drop_first_fence (line ∷ lines) = if starts_with line "```" then lines else line ∷ lines

-- `bool(value)`
abbrev pub is_truthy : Value → Bool
is_truthy null = false
is_truthy (bool b) = b
is_truthy (int sign n) = not (n == 0)
is_truthy (float text) = not (text == "0.0" || text == "-0.0")
is_truthy (str text) = not (text == "")
is_truthy (obj end) = false
is_truthy (obj (field k v fs)) = true
is_truthy (arr nil) = false
is_truthy (arr (cons v vs)) = true

abbrev pub has : String → Fields → Bool
has k fs = elim (field_of k fs) [ none ↦ false | some v ↦ is_truthy v ]

-- `parsed and parsed.get("conjecture") and ...`
abbrev pub is_complete : Option Fields → Bool
is_complete none = false
is_complete (some fs) = has "conjecture" fs && has "method" fs && has "success_criteria" fs

abbrev pub verdicts : List String
verdicts = "supported" ∷ "refuted" ∷ "inconclusive" ∷ []

module _ (texts : Texts) where
  -- `strip_markdown_fences`
  unfoldable pub strip_markdown_fences : String → String
  unfolding drop_last_fence join
  strip_markdown_fences raw =
      let stripped = texts.strip raw in
      if starts_with stripped "```"
      then texts.strip (join "\n" (drop_last_fence (drop_first_fence (texts.splitlines stripped))))
      else stripped

  abbrev pub object_of : Option Value → Option Fields
  object_of (some (obj fs)) = some fs
  object_of _ = none

  -- `_parse_json_object`
  unfoldable pub parse_json_object : String → Option Fields
  unfolding strip_markdown_fences
  parse_json_object text =
      let cleaned = strip_markdown_fences (texts.strip text) in
      elim (texts.find "{" cleaned) [
        | none ↦ none
        | some first ↦ elim (texts.rfind "}" cleaned) [
          | none ↦ none
          | some last ↦
              if leb last first
              then none
              else object_of (texts.loads (cut (last + 1 - first) (skip first cleaned)))
        ]
      ]

  -- `str(parsed.get(key, ""))`
  abbrev pub text_at : String → Fields → String
  text_at k fs = elim (field_of k fs) [ none ↦ "" | some v ↦ texts.shown v ]

  abbrev pub task_of : String → String → String → String
  task_of conjecture method criteria =
      "Execute this experiment.\nConjecture: " ⧺ conjecture ⧺ "\nMethod: " ⧺ method
      ⧺ "\nSuccess criteria: " ⧺ criteria
      ⧺ "\nFollow the method with the available tools, check the outcome against the criteria, then finish with final_answer stating supported / refuted / inconclusive plus the evidence you saw."

  abbrev pub protocol : String → String → String → String → Protocol
  protocol conjecture method criteria applicability = record {
    conjecture = conjecture;
    method = method;
    criteria = criteria;
    applicability = applicability;
    task = task_of conjecture method criteria;
  }

  abbrev pub applicability_of : Option Fields → String
  applicability_of none = ""
  applicability_of (some fs) = text_at "applicability" fs

  -- The protocol of an answer: that of the generic experiment where something is missing.
  abbrev pub generic : String → String → Protocol
  generic hypothesis =
      protocol hypothesis "Investigate directly with the available tools."
        "The run ends with a concrete final_answer addressing the question."

  unfoldable pub protocol_of : String → Option Fields → Protocol
  protocol_of hypothesis none = generic hypothesis ""
  protocol_of hypothesis (some fs) =
      if is_complete (some fs)
      then protocol (text_at "conjecture" fs) (text_at "method" fs) (text_at "success_criteria" fs)
          (text_at "applicability" fs)
      else generic hypothesis (text_at "applicability" fs)

  -- `f"- {action} -> {result[:120]}"`
  abbrev pub trace_line : Entry → String
  trace_line entry = "- " ⧺ texts.shown_action entry.action ⧺ " -> " ⧺ cut 120 entry.result

  -- `(action.get("args") or {}).get("answer", "")`, as a text in lower case. (Over arguments
  -- that are true but no object Python raises.)
  abbrev pub answer_in : Value → String
  answer_in (obj args) = texts.lower (text_at "answer" args)
  answer_in _ = texts.lower ""

  -- The answer of the last `final_answer` of a history, given from its end.
  unfoldable pub final_answer : List Entry → String
  final_answer [] = ""
  final_answer (entry ∷ earlier) =
      let rest = final_answer earlier in
      if entry.action.name == "final_answer" then answer_in entry.action.args else rest

  -- The first of the verdicts that the final answer names.
  unfoldable pub named_verdict : String → List String → Verdict
  named_verdict final [] = record { verdict = "inconclusive"; evidence = "" }
  named_verdict final (v ∷ vs) =
      let rest = named_verdict final vs in
      if texts.mentions v final
      then record { verdict = v; evidence = "from final_answer text" }
      else rest

  abbrev pub fallback : List Entry → Verdict
  fallback reversed =
      named_verdict (final_answer reversed) ("refuted" ∷ "inconclusive" ∷ "supported" ∷ [])

  -- What stands under "verdict" in the answer, if it is one of the three, with its evidence.
  abbrev pub stated_verdict : Option Value → Fields → List Entry → Verdict
  stated_verdict (some (str v)) fs reversed =
      if elem v verdicts
      then record { verdict = v; evidence = cut 300 (text_at "evidence" fs) }
      else fallback reversed
  stated_verdict _ fs reversed = fallback reversed

  -- The verdict of an answer, or of the history given from its end.
  unfoldable pub verdict_of : Option Fields → List Entry → Verdict
  verdict_of none reversed = fallback reversed
  verdict_of (some fs) reversed = stated_verdict (field_of "verdict" fs) fs reversed
