-- ===== src/Evolution/Tests.antt =====
-- The director on a memory of three open questions, with a brain that is silent.
use swaybot.Prelude.{
  ℕ, ◌+◌, ◌≡◌, ◌≢◌, refl, subst, sym, arith, String, true, false, none, some, List, [], ◌∷◌, ◌++◌,
  string_eq, nat_eq, ◌==◌, All, ltb,
}
use Prim.Native.String.{count}
use swaybot.Prelude.Float.{tenths}
use swaybot.Json.{Fields, end, field, arr, cons, nil, str, field_of}
use swaybot.Memory.Steps.{Step, body_credibility}
use swaybot.Memory.Store.{Store, save}
use swaybot.Memory.Queries.{query}
use swaybot.Evolution.Questions.{
  question, insight, finding, open_candidates, open_of, sort_by_depth, is_open,
}
use swaybot.Evolution.Protocol.{Texts}
use swaybot.Evolution.Weighing.{update_conjecture, judge_all, judged, up}
use swaybot.Evolution.Director.{Explorer, Limits, sub_questions, cycle, rounds, chosen}
use swaybot.Evolution.Order.{IsSorted, at_depth, open_candidates-IsSorted}
use swaybot.Evolution.Credit.{CreditInUnit, update_conjecture-InUnit}
use swaybot.Evolution.Depths.{Shallow}
use swaybot.Evolution.Rounds.{cycle-Shallow}
use swaybot.Evolution.Events.{Counted, cycle-Counted}
use swaybot.Evolution.Soul.{Soul, Gated, propose, propose-Gated, stable_theories, render}
use swaybot.Evolution.Life.{
  Habits, Life, live, live-dry, turn, rest_of_turn, wonder_more, seed_questions, dream_once,
}

abbrev plain : Texts
plain = record {
  strip = λ text. text;
  lower = λ text. text;
  splitlines = λ text. [];
  mentions = λ part text. part == text;
  find = λ part text. none;
  rfind = λ part text. none;
  loads = λ text. none;
  shown = λ value. elim value [ str text ↦ text | _ ↦ "" ];
  shown_action = λ action. action.name;
  decimal = λ n. "n";
  strip_marks = λ text. text;
  split_seed = λ text. [];
}

abbrev silent : Explorer ℕ ℕ
silent = record {
  ask = λ prompt w. ("", w + 1);
  run = λ task hypothesis s w. (record { history = []; stop_reason = some "max_steps" }, s, w + 1);
  tools = "final_answer" ∷ [];
  now = λ w. "now";
}

abbrev limits : Limits
limits = record { min_open = 1; max_runs = 2; max_depth = 2 }

abbrev no_words : String → List String
no_words text = []

abbrev as_is : String → String
as_is text = text

abbrev deep : Step ℕ
deep = question tenths "why is it slow" "" 1 "t"

abbrev shallow : Step ℕ
shallow = question tenths "what is it" "" 0 "t"

abbrev contradiction : Step ℕ
contradiction = insight tenths "contradiction" "it is and is not" 5 "" 1 "t"

abbrev curious : Store ℕ
curious = record {
  memories =
      deep
      ∷ shallow
      ∷ contradiction
      ∷ finding tenths "conjecture" "it is" 9 "what is it" "" "t"
      ∷ [];
  batch_depth = 0;
  disk = none;
  writes = 0;
}

-- The shallow question comes before the deeper contradiction.
candidates_order : open_candidates tenths curious ≡ shallow ∷ contradiction ∷ deep ∷ []
unfolding open_candidates open_of query sort_by_depth
candidates_order = refl

open_candidates-IsSorted_example :
    IsSorted (open_candidates tenths curious)
    × All (λ m. is_open m ≡ true) (open_candidates tenths curious)
    × (at_depth 1 (open_candidates tenths curious)
        ≡ at_depth 1 (open_of tenths "contradiction" curious.memories)
          ++ at_depth 1 (open_of tenths "question" curious.memories))
open_candidates-IsSorted_example = open_candidates-IsSorted tenths 1 curious

-- 0.9 and 0.2 are 1.0.
raised_credit :
    (update_conjecture tenths "what is it" "supported" "now" curious).memories
    ≡ deep
      ∷ shallow
      ∷ contradiction
      ∷ record (finding tenths "conjecture" "it is" 9 "what is it" "" "t") {
        body =
            judged tenths up "now" (finding tenths "conjecture" "it is" 9 "what is it" "" "t").body;
      }
      ∷ []
unfolding update_conjecture judge_all save
raised_credit = refl

update_conjecture-InUnit_example :
    All
      (λ m. CreditInUnit tenths (body_credibility m.body))
      (update_conjecture tenths "what is it" "supported" "now" curious).memories
update_conjecture-InUnit_example =
    update_conjecture-InUnit tenths "what is it" "supported" "now" curious
      ((refl, refl), ((refl, refl), ((refl, refl), ((refl, refl), tt))))

cycle-Shallow_example : Shallow 2 (cycle tenths no_words as_is plain silent limits curious 0).1
cycle-Shallow_example =
    cycle-Shallow tenths no_words as_is plain silent limits (λ task hypothesis s w every. every)
      curious 0 (omega arith, (omega arith, (omega arith, (omega arith, tt))))

cycle-Counted_example : Counted 2 (cycle tenths no_words as_is plain silent limits curious 0).0
cycle-Counted_example = cycle-Counted tenths no_words as_is plain silent limits curious 0

abbrev splitting : Fields
splitting = field "sub_questions" (arr (cons (str "how fast") (cons (str "why") nil))) end

-- "why" is too short.
one_sub_question : sub_questions plain (some splitting) ≡ "how fast" ∷ []
unfolding sub_questions field_of
one_sub_question = refl

-- Theories from time 3 on are too young; times are the lengths of the texts.
abbrev cautious : Soul ℕ ℕ
cautious = record {
  min_theories = 1;
  min_credibility = 8;
  age_cutoff = 3;
  quiet_cutoff = 9;
  fromisoformat = λ text. some (count text);
  before = ltb;
  two_decimals = λ c. "0.9";
  unified_diff = λ old new. new;
}

abbrev wise : Store ℕ
wise = record curious {
  memories = insight tenths "theory" "it is fast" 9 "" 0 "t" ∷ curious.memories;
}

abbrev digest : String
digest =
    "# Soul digest\n\n> Auto-proposed digest of stable, high-credibility theories.\n> Generated by the soul channel; every change is gated and diffed.\n\n- (credibility 0.9) it is fast\n"

propose-Gated_example : Gated tenths cautious wise none digest
unfolding propose stable_theories render query
propose-Gated_example = propose-Gated tenths cautious wise none digest digest refl

abbrev idle : Store ℕ
idle = record { memories = []; batch_depth = 0; disk = none; writes = 0 }

abbrev habits : Habits ℕ
habits = record { seed = ""; rounds_between_dreams = 3; stop_check = λ w. (false, w + 1) }

idle-closed :
    (life : Life) (s : Store ℕ) (w : ℕ)
    → s ≡ idle
    → (open_candidates tenths (cycle tenths no_words as_is plain silent limits s (w + 1)).1 ≡ [])
      × ((turn tenths no_words as_is plain silent limits habits life s (w + 1)).1.1 ≡ idle)
unfolding cycle rounds chosen open_candidates open_of query turn wonder_more rest_of_turn dream_once
    sort_by_depth
idle-closed life s w same =
    subst
      (λ t.
        (open_candidates tenths (cycle tenths no_words as_is plain silent limits t (w + 1)).1 ≡ [])
        × ((turn tenths no_words as_is plain silent limits habits life t (w + 1)).1.1 ≡ idle))
      (sym same) (refl, ground arith)

live-dry_example : live tenths no_words as_is plain silent limits habits 3 idle 0 ≢ none
unfolding seed_questions wonder_more
live-dry_example =
    live-dry tenths no_words as_is plain silent limits habits (λ s w. s ≡ idle)
      (λ life s w same. idle-closed life s w same) (λ s w. refl) idle 0 refl
