-- ===== src/Agent/Environment.antt =====
-- `Environment` of swaybot/task_state.py. A result is the text that the loop keeps of it.
use swaybot.Prelude.{
  ℕ, ◌+◌, String, Bool, true, false, ◌||◌, Option, none, some, List, [], ◌∷◌, ◌++◌, leb, ◌==◌,
  string_eq, if◌then◌else◌,
}
use swaybot.LoopGuards.Repeat.{Action}

pub data StopReason : Type 0 where
  tool max_steps : StopReason

pub record Entry : Type 0 where
  pub step : ℕ
  pub action : Action
  pub result : String

pub record Environment : Type 0 where
  pub task : String
  pub max_steps : ℕ
  pub step : ℕ
  pub done : Bool
  pub stop_reason : Option StopReason
  pub history : List Entry

-- `Environment(task=task, max_steps=max_steps)`
abbrev pub start : String → ℕ → Environment
start task limit = record {
  task = task;
  max_steps = limit;
  step = 0;
  done = false;
  stop_reason = none;
  history = [];
}

abbrev pub is_final : Action → Bool
is_final a = a.name == "done" || a.name == "final_answer"

unfoldable pub observe : Action → String → Environment → Environment
observe a result env =
    let step = env.step + 1 in
    let history = env.history ++ (record { step = step; action = a; result = result }) ∷ [] in
    if is_final a
    then record env { step = step; done = true; stop_reason = some tool; history = history }
    else if leb env.max_steps step
    then record env { step = step; done = true; stop_reason = some max_steps; history = history }
    else record env { step = step; history = history }
