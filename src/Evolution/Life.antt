-- ===== src/Evolution/Life.antt =====
-- `LifeRunner` of swaybot/evolution.py on the memory and the world. What it writes to files, and the events
-- that it only emits, are left out; an interrupt ends it between two phases like the stop check.
use Prim.Native.String.{count}
use swaybot.Prelude.{
  ℕ, zero, suc, ◌+◌, ◌/◌, ◌%◌, ◌≡◌, ◌≢◌, ◌≤◌, ◌⊎◌, inl, inr, sym, ◌∙◌, if_induction, refl, ap,
  arith, String, Bool, true, false, not, ◌&&◌, Option, none, some, List, [], ◌∷◌, map, leb, ltb,
  ◌==◌, nat_eq, string_eq, filter, elem, length, take, if◌then◌else◌,
}
use swaybot.Prelude.Text.{cut, join, starts_with, ◌⧺◌}
use swaybot.Prelude.Float.{Floats}
use swaybot.Memory.Steps.{Step, content}
use swaybot.Memory.Store.{Store}
use swaybot.Memory.Queries.{query}
use swaybot.Evolution.Questions.{insight, question, open_candidates}
use swaybot.Evolution.Protocol.{Texts, wonder, dream, skip}
use swaybot.Evolution.Director.{Event, Explorer, Limits, remember, cycle}

pub record Life : Type 0 where
  pub rounds : ℕ
  pub wonders : ℕ
  pub dreams : ℕ
  pub dry_streak : ℕ

pub record Habits (W : Type 0) : Type 0 where
  pub seed : String
  pub rounds_between_dreams : ℕ
  pub stop_check : W → Bool × W

abbrev pub is_nil : {A : Type 0} → List A → Bool
is_nil [] = true
is_nil (x ∷ xs) = false

abbrev pub nonempty : List String → List String
nonempty = filter (λ text. not (text == ""))

-- What a line of a dream says.
pub data Line : Type 0 where
  theory question_line : String → Line
  other : Line

true-false : true ≢ false
true-false e = cc e

module _ {F W : Type 0} (fl : Floats F) (words : String → List String) (clean : String → String)
    (texts : Texts) (explorer : Explorer F W) (limits : Limits) (habits : Habits W) where
  abbrev keep : Step F → Store F → Store F
  keep = remember fl words clean texts explorer limits

  -- The contents of the questions that are there.
  abbrev pub known_questions : List (Step F) → List String
  known_questions ms = map content (filter (λ m. m.kind == "question") ms)

  unfoldable pub plant : List String → List String → String → Store F → Store F
  plant [] known now s = s
  plant (text ∷ more) known now s =
      plant more known now (if elem text known then s else keep (question fl text "" 0 now) s)

  -- `_seed_questions`
  unfoldable pub seed_questions : String → Store F → Store F
  unfolding plant
  seed_questions now s =
      plant (nonempty (map texts.strip (texts.split_seed habits.seed))) (known_questions s.memories)
        now s

  unfoldable pub wonder_about : List String → String → Store F → Store F
  wonder_about [] now s = s
  wonder_about (text ∷ more) now s = wonder_about more now (keep (question fl text "" 0 now) s)

  -- `_wonder`: the questions of an answer, and the memory with them.
  unfoldable pub wonder_more : Store F → W → List String × Store F × W
  unfolding wonder_about
  wonder_more s w =
      let digest =
        join "\n"
          (map (λ m. cut 120 (content m)) (query fl "" "" "long_term" none 15 s.memories)) in
      let answer = explorer.ask (wonder digest) w in
      let questions = take 3 (
        map texts.strip_marks
          (filter (λ line. ltb 4 (count (texts.strip line))) (texts.splitlines answer.0))) in
      (questions, wonder_about questions (explorer.now answer.1) s, answer.1)

  unfoldable pub line_of : String → Line
  unfolding starts_with
  line_of line =
      let stripped = texts.strip line in
      if starts_with stripped "- " && ltb 6 (count stripped)
      then theory (texts.strip (skip 2 stripped))
      else if starts_with stripped "?" && ltb 6 (count stripped)
      then question_line (texts.strip (skip 1 stripped))
      else other

  abbrev pub dreamt : Line → String → Store F → Store F
  dreamt (theory text) now s = keep (insight fl "theory" text (fl.lit 6) "" 0 now) s
  dreamt (question_line text) now s = keep (question fl text "" 0 now) s
  dreamt other now s = s

  unfoldable pub dream_lines : List String → String → Store F → Store F
  dream_lines [] now s = s
  dream_lines (line ∷ lines) now s = dream_lines lines now (dreamt (line_of line) now s)

  -- `_dream`
  unfoldable pub dream_once : Store F → W → Store F × W
  unfolding dream_lines line_of
  dream_once s w =
      let digest = join "\n" (
        map (λ m. "- " ⧺ cut 150 (content m))
          (query fl "" "experiment" "long_term" none 10 s.memories)) in
      let answer = explorer.ask (dream (if digest == "" then "(none yet)" else digest)) w in
      (dream_lines (texts.splitlines answer.0) (explorer.now answer.1) s, answer.1)

  -- The rest of a turn of the loop, once it is known whether it goes on: a dream where it is due.
  unfoldable pub rest_of_turn : Life → Store F → W → Life × Store F × W
  rest_of_turn life s w =
      let dreamed = dream_once s w in
      if not (life.rounds == 0) && life.rounds % habits.rounds_between_dreams == 0
      then (record life { dreams = life.dreams + 1 }, dreamed.0, dreamed.1)
      else (life, s, w)

  -- One turn of the loop of `live` after the stop check: whether life ends, and what it has come to.
  unfoldable pub turn : Life → Store F → W → Bool × (Life × Store F × W)
  turn life s w =
      let (events, s1, w1) = cycle fl words clean texts explorer limits s w in
      let (added, s2, w2) = wonder_more s1 w1 in
      let explored = record life { rounds = life.rounds + length events / 3 } in
      let wondered = record explored {
        wonders = explored.wonders + length added;
        dry_streak = if is_nil added then life.dry_streak + 1 else 0;
      } in
      if is_nil (open_candidates fl s1)
      then (if leb 3 wondered.dry_streak
          then (true, (wondered, s2, w2))
          else (false, rest_of_turn wondered s2 w2))
      else (false, rest_of_turn (record explored { dry_streak = 0 }) s1 w1)

  -- The loop of `live`; `none` where `fuel` turns do not end it.
  unfoldable pub live_from : ℕ → Life → Store F → W → Option (Life × Store F × W)
  live_from zero life s w = none
  live_from (suc fuel) life s w =
      let checked = habits.stop_check w in
      let turned = turn life s checked.1 in
      let (later, s1, w1) = turned.1 in
      let rest = live_from fuel later s1 w1 in
      if checked.0 then some (life, s, checked.1) else if turned.0 then some turned.1 else rest

  -- `live`
  unfoldable pub live : ℕ → Store F → W → Option (Life × Store F × W)
  live fuel s w =
      live_from fuel (record { rounds = 0; wonders = 0; dreams = 0; dry_streak = 0 })
        (seed_questions (explorer.now w) s) w

  rest_of_turn-dry_streak :
      (life : Life) (s : Store F) (w : W) → (rest_of_turn life s w).0.dry_streak ≡ life.dry_streak
  unfolding rest_of_turn
  rest_of_turn-dry_streak life s w = ground arith

  -- A turn in which nothing is open and no question occurs.
  dry_turn :
      (life : Life) (s : Store F) (w : W)
      → open_candidates fl (cycle fl words clean texts explorer limits s w).1 ≡ []
      → ((s : Store F) (w : W) → (wonder_more s w).0 ≡ [])
      → ((turn life s w).0 ≡ true)
        ⊎ ((leb 3 (life.dry_streak + 1) ≡ false)
            × ((turn life s w).1.0.dry_streak ≡ life.dry_streak + 1))
  unfolding turn
  dry_turn life s w closed dry =
      let streak_after : (if is_nil (wonder_more after.1 after.2).0 then life.dry_streak + 1 else 0)
          ≡ life.dry_streak + 1 =
        ap (λ added. if is_nil added then life.dry_streak + 1 else 0) (dry after.1 after.2) in
      if_induction Dry (is_nil (open_candidates fl after.1))
        (λ none_open.
          if_induction Dry
            (leb 3 (if is_nil (wonder_more after.1 after.2).0 then life.dry_streak + 1 else 0))
            (λ over. inl refl)
            (λ goes_on. inr (
              ap (leb 3) (sym streak_after) ∙ goes_on,
              rest_of_turn-dry_streak _ _ _ ∙ streak_after,
            )))
        (λ some_open. absurd (true-false (sym (ap is_nil closed) ∙ some_open)))
    where
      after : List Event × Store F × W
      after = cycle fl words clean texts explorer limits s w

      Dry : Bool × (Life × Store F × W) → Type 0
      Dry result =
          (result.0 ≡ true)
          ⊎ ((leb 3 (life.dry_streak + 1) ≡ false) × (result.1.0.dry_streak ≡ life.dry_streak + 1))

  -- A turn keeps what it starts from closed: nothing is open after the cycle.
  abbrev pub StaysClosed : (Store F → W → Type 0) → Type 0
  StaysClosed Holds =
      (life : Life) (s : Store F) (w : W)
      → Holds s w
      → (open_candidates fl (cycle fl words clean texts explorer limits s (habits.stop_check w).1).1
          ≡ [])
        × Holds (turn life s (habits.stop_check w).1).1.1 (turn life s (habits.stop_check w).1).1.2

  live_from-dry :
      (Holds : Store F → W → Type 0)
      → StaysClosed Holds
      → ((s : Store F) (w : W) → (wonder_more s w).0 ≡ [])
      → (fuel : ℕ) (life : Life) (s : Store F) (w : W) → 3 ≤ fuel + life.dry_streak
      → 1 ≤ fuel
      → Holds s w
      → live_from fuel life s w ≢ none
  unfolding live_from
  live_from-dry Holds closed dry zero life s w enough some_fuel holds = ground (arith, some_fuel)
  live_from-dry Holds closed dry (suc fuel) life s w enough some_fuel holds =
      let checked : Bool × W = habits.stop_check w in
      let turned : Bool × (Life × Store F × W) = turn life s checked.1 in
      if_induction {A = Option (Life × Store F × W)} (λ result. result ≢ none) checked.0
        (λ stopped e. cc e)
        (λ going.
          if_induction {A = Option (Life × Store F × W)} (λ result. result ≢ none) turned.0
            (λ ended e. cc e)
            (λ on. elim (dry_turn life s checked.1 (closed life s w holds).0 dry) [
              | inl ended ↦ absurd (true-false (sym ended ∙ on))
              | inr (few, more) ↦
                  live_from-dry Holds closed dry fuel turned.1.0 turned.1.1 turned.1.2
                    (ground (arith, enough, more)) (ground (arith, few, enough))
                    (closed life s w holds).1
            ]))

  -- Where nothing is open after each cycle and no question occurs to the agent, it ends its life within
  -- three turns of the loop.
  pub live-dry :
      (Holds : Store F → W → Type 0)
      → ((life : Life) (s : Store F) (w : W)
          → Holds s w
          → (open_candidates fl
                (cycle fl words clean texts explorer limits s (habits.stop_check w).1).1
              ≡ [])
            × Holds
                (turn life s (habits.stop_check w).1).1.1
                (turn life s (habits.stop_check w).1).1.2)
      → ((s : Store F) (w : W) → (wonder_more s w).0 ≡ [])
      → (s : Store F) (w : W) → Holds (seed_questions (explorer.now w) s) w
      → live 3 s w ≢ none
  unfolding live
  live-dry Holds closed dry s w = live_from-dry Holds closed dry 3 _ _ w (omega arith) (omega arith)
