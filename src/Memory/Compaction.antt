-- ===== src/Memory/Compaction.antt =====
-- `AutoCompact` of swaybot/memory.py. The summarizer is a parameter that may raise, and a function of the
-- steps alone: what a model that it asks does to the world is not modelled. Parameters are also `str` of an
-- action, `str.strip`, the clock, and the equality of steps that `@dataclass` generates.
use Prim.Native.String.{count}
use swaybot.Prelude.{
  ℕ, ◌+◌, ◌-◌, ◌/◌, String, Bool, true, false, not, ◌&&◌, Option, none, some, List, [], ◌∷◌, ltb,
  ◌==◌, nat_eq, string_eq, elem, length, take, filter, Eq, max, Result, ok, err, if◌then◌else◌, map,
}
use swaybot.Prelude.Float.{Floats}
use swaybot.Prelude.Text.{◌⧺◌, cut, join}
use swaybot.Json.{Value, obj, end}
use swaybot.Memory.Steps.{Step, Body, memory, action, observation, reflection, is_task}
use swaybot.Memory.Store.{Store, add}
use swaybot.Memory.Queries.{iter_short_term}

pub record AutoCompact (F : Type 0) : Type 0 where
  -- `none` where there is no summarizer; an error is an exception, `ok none` a `None`.
  pub brain : Option (List (Step F) → Result (Unit {0}) (Option String))
  pub max_steps : ℕ
  pub max_context_chars : ℕ

-- `{}`, which `or` passes over.
abbrev is_empty_object : Value → Bool
is_empty_object (obj end) = true
is_empty_object _ = false

module _ {F : Type 0} (show : Value → String) where
  -- What `_step_chars` measures: `content`, else `action`, else `observation`, as `or` finds it.
  abbrev measured : Body F → String
  measured (memory b) = if b.content == "" then "None" else b.content
  measured (reflection r) = if r.content == "" then "None" else r.content
  measured (action _ a _) = if is_empty_object a then "None" else show a
  measured (observation _ text) = text
  measured _ = "None"

  unfoldable pub step_chars : Step F → ℕ
  step_chars m = count (measured m.body)

  unfoldable pub total_chars : List (Step F) → ℕ
  total_chars [] = 0
  total_chars (m ∷ ms) = step_chars m + total_chars ms

  -- The text that `_fallback_summary` takes of a step.
  abbrev snippet : Body F → String
  snippet (memory b) = b.content
  snippet (reflection r) = r.content
  snippet (action _ a _) = show a
  snippet (observation _ text) = text
  snippet _ = ""

  unfoldable pub fallback_summary : List (Step F) → String
  unfolding cut join
  fallback_summary ms =
      let joined = join "; " (filter (λ t. not (t == "")) (map (λ m. snippet m.body) ms)) in
      "Compacted: " ⧺ (if ltb 200 (count joined) then cut 197 joined ⧺ "..." else joined)

-- `list.remove(x)`: the first equal element.
unfoldable pub remove {ℓ} : {A : Type ℓ} ⦃e : Eq A⦄ → A → List A → List A
remove x [] = []
remove x (y ∷ ys) = if y == x then ys else y ∷ remove x ys

unfoldable pub remove_all {ℓ} : {A : Type ℓ} ⦃e : Eq A⦄ → List A → List A → List A
remove_all [] ys = ys
remove_all (x ∷ xs) ys = remove_all xs (remove x ys)

abbrev pub summary_tags : Option String → List String
summary_tags none = "compact" ∷ []
summary_tags (some tag) = if tag == "" then "compact" ∷ [] else tag ∷ "compact" ∷ []

-- `candidates[:-keep] if keep else candidates`
abbrev pub all_but {ℓ} : {A : Type ℓ} → ℕ → List A → List A
all_but keep xs = if keep == 0 then xs else take (length xs - keep) xs

module _ {F : Type 0} where
  -- The short-term steps of the tag that are no task statement.
  abbrev pub is_candidate : Option String → Step F → Bool
  is_candidate none m = m.scope == "short_term" && not (is_task m.body)
  is_candidate (some tag) m = (m.scope == "short_term" && elem tag m.tags) && not (is_task m.body)

  unfoldable pub candidates : Option String → List (Step F) → List (Step F)
  unfolding iter_short_term
  candidates tag ms = filter (λ m. not (is_task m.body)) (iter_short_term tag ms)

  -- How many steps to keep; `none` where no threshold is passed.
  unfoldable pub window : (Value → String) → AutoCompact F → List (Step F) → Option ℕ
  window show c steps =
      if ltb c.max_steps (length steps)
      then some c.max_steps
      else if ltb c.max_context_chars (total_chars show steps) && ltb 1 (length steps)
      then some (max 1 (length steps / 2))
      else none

  -- The summarizer's text, or "" where there is none, or it raises, or answers `None`.
  unfoldable pub ask_summary : (String → String) → AutoCompact F → List (Step F) → String
  ask_summary strip c steps = elim c.brain [
    | none ↦ ""
    | some brain ↦ elim (brain steps) [
      | ok none ↦ strip ""
      | ok (some text) ↦ strip text
      | err _ ↦ ""
    ]
  ]

  unfoldable pub summary_of :
      (Value → String) → (String → String) → AutoCompact F → List (Step F) → String
  unfolding ask_summary fallback_summary
  summary_of show strip c steps =
      let answer = ask_summary strip c steps in
      if answer == "" then fallback_summary show steps else answer

  -- `Memory(content=summary, scope="long_term", tags=...)`
  abbrev pub summary_step : Floats F → String → String → Option String → Step F
  summary_step fl now text tag = record {
    kind = "experience";
    scope = "long_term";
    source = "";
    tags = summary_tags tag;
    created_at = now;
    body = memory (record {
      content = text;
      evidence = "";
      credibility = fl.lit 5;
      surprise = fl.lit 0;
      relation = "";
      applicability = "";
      supported_count = 0;
      refuted_count = 0;
      last_verified_at = "";
    });
  }

module _ {F : Type 0} ⦃e : Eq (Step F)⦄ (fl : Floats F) (split : String → List String)
    (clean : String → String) (show : Value → String) (strip : String → String) (now : String) where
  -- The steps from `to_compact = ...` on. The fallback's text is never empty, so the branch of the
  -- source that only saves is not reached.
  unfoldable pub compact_steps :
      AutoCompact F → Option String → List (Step F) → Store F → Store F × Bool
  compact_steps c tag [] s = (s, false)
  compact_steps c tag (m ∷ ms) s = (
    add fl split clean (summary_step fl now (summary_of show strip c (m ∷ ms)) tag)
        (record s { memories = remove_all (m ∷ ms) s.memories }),
    true,
  )

  -- `compact`
  unfoldable pub compact : AutoCompact F → Option String → Store F → Store F × Bool
  compact c tag s =
      let steps = candidates tag s.memories in
      elim (window show c steps) [
        | none ↦ (s, false)
        | some keep ↦ compact_steps c tag (all_but keep steps) s
      ]
