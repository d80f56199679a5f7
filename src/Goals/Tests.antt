-- ===== src/Goals/Tests.antt =====
-- Goals on the in-memory backend.
use swaybot.Prelude.{
  ℕ, ◌+◌, ◌≡◌, ◌⊎◌, String, refl, [], ◌∷◌, ok, err, false, string_eq, nat_eq, if◌then◌else◌, ◌==◌,
}
use swaybot.Prelude.Dict.{insert, lookup}
use swaybot.Prelude.Text.{starts_with}
use swaybot.Json.{obj, field_of}
use swaybot.Storage.Records.{invalid_key}
use swaybot.Storage.Files.{path}
use swaybot.Storage.InMemory
use swaybot.Storage.InMemory.{Data, in_memory, safe_key}
use swaybot.Goals.Goal.{
  Goal, Subtask, Defaults, planner, goal_fields, subtask_fields, subtask_items, subtasks_of,
  deserialize, deserialize-goal_fields,
}
use swaybot.Goals.Machine.{goal_key, mark, moved, create, transition, save, load}
use swaybot.Goals.Coordinator.{
  finished, raised, Team, verdict, find_subtask, subtask_job, execute_subtask, run_from,
  resume_from, finish, prepare, work, run, resume,
}
use swaybot.Goals.Working.{Ended, run-Ended}
use swaybot.Goals.Resuming.{resume-closed, run-Returns}
use swaybot.Goals.Keys.{path-goal_key, in_memory-accepts}

abbrev defaults : Defaults
defaults = record { goal_id = "g"; subtask_id = "s"; now = "now" }

abbrev halves : Subtask
halves = record {
  id = "s0";
  description = "halve";
  status = "running";
  result = "";
  created_at = "now";
}

-- A goal that was interrupted while its only subtask was running.
abbrev interrupted : Goal
interrupted = record {
  id = "g";
  description = "halve it";
  context = "";
  subtasks = halves ∷ [];
  state = "running";
  created_at = "now";
  updated_at = "now";
}

-- Plans two subtasks, of which the agents fail at "break".
abbrev team : Team Data ℕ
team = record {
  plan = λ g w. (ok ("halve" ∷ "break" ∷ []), w);
  attempt =
      λ goal text w. (if text == "break" then raised "broken" else finished false "halved", w + 1);
  between = λ i s. s;
  fresh_id = λ n. if n == 0 then "s0" else "s1";
}

abbrev stored : Data
stored = (goal_key "g", obj (goal_fields interrupted)) ∷ []

deserialize-goal_fields_example : deserialize defaults (goal_fields interrupted) ≡ ok interrupted
deserialize-goal_fields_example = deserialize-goal_fields defaults interrupted

run-Returns_example :
    ((r : Goal × Data × ℕ) × (run in_memory defaults team "halve it" "" [] 0 ≡ ok r))
    ⊎ ((g : Goal) × (text : String) × ((team.plan g 0).0 ≡ err text)
        × (run in_memory defaults team "halve it" "" [] 0 ≡ err (planner text)))
run-Returns_example = run-Returns in_memory defaults team in_memory-accepts "halve it" "" [] 0

abbrev pieces : Subtask × Subtask
pieces = (
  record {
    id = "s0";
    description = "halve";
    status = "done";
    result = "halved";
    created_at = "now";
  },
  record {
    id = "s1";
    description = "break";
    status = "failed";
    result = "Error: broken";
    created_at = "now";
  },
)

abbrev broken : Goal
broken = record {
  id = "g";
  description = "halve it";
  context = "";
  subtasks = pieces.0 ∷ pieces.1 ∷ [];
  state = "failed";
  created_at = "now";
  updated_at = "now";
}

abbrev left : Data
left = (goal_key "g", obj (goal_fields broken)) ∷ []

run_result : run in_memory defaults team "halve it" "" [] 0 ≡ ok (broken, left, 2)
unfolding run prepare work run_from finish execute_subtask subtask_job verdict find_subtask
    starts_with create transition moved mark save load InMemory.save InMemory.load safe_key
    goal_fields subtask_fields subtask_items deserialize subtasks_of field_of insert lookup
run_result = refl

run-Ended_example : Ended in_memory defaults team "g" broken left
run-Ended_example =
    run-Ended in_memory defaults team "halve it" "" [] 0 (broken, left, 2) run_result

abbrev ended : Goal
ended = record interrupted { state = "done" }

abbrev resumed : Data
resumed = (goal_key "g", obj (goal_fields ended)) ∷ []

resume_result : resume in_memory defaults team "g" stored 0 ≡ ok (ended, resumed, 0)
unfolding resume resume_from finish transition moved save load InMemory.save InMemory.load safe_key
    goal_fields subtask_fields subtask_items deserialize subtasks_of field_of insert lookup
resume_result = refl

resume-closed_example : (ended.state ≡ "done") × (ended.subtasks ≡ halves ∷ [])
unfolding load InMemory.load safe_key goal_fields subtask_fields subtask_items deserialize
    subtasks_of field_of lookup
resume-closed_example =
    resume-closed in_memory defaults team "g" interrupted stored 0 (ended, resumed, 0) refl
      (refl, tt) resume_result

path-goal_key_example : path "goal:g" ≡ err (invalid_key "goal:g")
path-goal_key_example = path-goal_key "g"
