-- ===== src/Goals/Coordinator.antt =====
-- `GoalCoordinator` of swaybot/goals/coordinator.py. The agents and the planning brain work on a world
-- `W`; `between` is what other tasks do to the store while a subtask is waited for. A job that publishes
-- nothing, since it raised or its agent hangs, is the case of the timeout: what such an agent writes
-- later is not modelled.
use swaybot.Prelude.{
  ℕ, zero, suc, ◌+◌, String, Bool, false, ◌||◌, Option, none, some, List, [], ◌∷◌, Result, ok, err,
  ◌>>=◌, if◌then◌else◌, ◌==◌, string_eq, length, any, map, get_elem?,
}
use swaybot.Prelude.Text.{◌⧺◌, starts_with}
use swaybot.Storage.Records.{Backend}
use swaybot.Goals.Goal.{Goal, Subtask, GoalError, planner, Defaults}
use swaybot.Goals.Machine.{create, save, load, transition}

-- How an agent's run of a subtask ends: with a history, of which `recorded` says whether an entry has
-- an error, by an exception, or not at all.
pub data Attempt : Type 0 where
  finished : Bool → String → Attempt
  raised : String → Attempt
  stuck : Attempt

-- The status and the result that `_subtask_job` makes of it.
unfoldable pub verdict : Attempt → Option (String × String)
unfolding starts_with
verdict (finished recorded final) =
    some (if recorded || starts_with final "Error:" then "failed" else "done", final)
verdict (raised text) = some ("failed", "Error: " ⧺ text)
verdict stuck = none

-- `next((s for s in goal.subtasks if s.id == subtask_id), None)`, with its position.
unfoldable pub find_subtask : String → List Subtask → Option (ℕ × Subtask)
find_subtask id [] = none
find_subtask id (s ∷ ss) =
    let rest = find_subtask id ss in
    if s.id == id then some (0, s) else elim rest [ none ↦ none | some (i, t) ↦ some (i + 1, t) ]

abbrev pub is_failed : Subtask → Bool
is_failed s = s.status == "failed"

abbrev pub id_at : ℕ → List Subtask → String
id_at i ss = elim (get_elem? ss i) [ none ↦ "" | some s ↦ s.id ]

abbrev pub is_open : ℕ → List Subtask → Bool
is_open i ss = elim (get_elem? ss i) [
  | none ↦ false
  | some s ↦ s.status == "pending" || s.status == "failed"
]

-- What `retry` does to a subtask.
abbrev pub reopened : Subtask → Subtask
reopened s = if is_failed s then record s { status = "pending"; result = "" } else s

pub record Team (S W : Type 0) : Type 0 where
  -- `_plan`, which the agents' factory and the brain may end by an exception
  pub plan : Goal → W → Result String (List String) × W
  pub attempt : String → String → W → Attempt × W
  pub between : ℕ → S → S
  pub fresh_id : ℕ → String

module _ {S W : Type 0} (backend : Backend S) (defaults : Defaults) (team : Team S W) where
  -- The event that the job publishes, if any, once the result is recorded.
  abbrev pub told :
      String × String → S → W → Result GoalError (Goal × S) → Option (String × String) × S × W
  told answer s w (err e) = (none, s, w)
  told answer s w (ok p) = (some answer, p.1, w)

  abbrev pub record_verdict :
      Goal → ℕ → Option (String × String) → S → W → Option (String × String) × S × W
  record_verdict g i none s w = (none, s, w)
  record_verdict g i (some answer) s w = told answer s w (
      transition backend defaults g none
        (some (record { position = i; status = answer.0; result = some answer.1 })) s)

  abbrev pub work_on :
      String → Goal → Option (ℕ × Subtask) → S → W → Option (String × String) × S × W
  work_on goal_id g none s w = (some ("failed", "subtask not found"), s, w)
  work_on goal_id g (some (i, t)) s w =
      let (a, v) = team.attempt goal_id t.description w in record_verdict g i (verdict a) s v

  abbrev pub work_in :
      String → String → Result GoalError Goal → S → W → Option (String × String) × S × W
  work_in goal_id subtask_id (err e) s w = (none, s, w)
  work_in goal_id subtask_id (ok g) s w = work_on goal_id g (find_subtask subtask_id g.subtasks) s w

  -- `_subtask_job`
  unfoldable pub subtask_job : String → String → S → W → Option (String × String) × S × W
  subtask_job goal_id subtask_id s w =
      work_in goal_id subtask_id (load backend defaults goal_id s) s w

  abbrev pub answered : Option (String × String) → String × String
  answered none = ("failed", "subtask timed out")
  answered (some answer) = answer

  -- `_execute_subtask` of the subtask at a position
  unfoldable pub execute_subtask : Goal → ℕ → S → W → Result GoalError (Goal × S × W)
  execute_subtask g i s w =
      transition backend defaults g (some "running")
        (some (record { position = i; status = "running"; result = none })) s
      >>= λ p.
          let (answer, t, v) = subtask_job g.id (id_at i g.subtasks) (team.between i p.1) w in
          transition backend defaults p.0 (some "waiting")
            (some (record {
              position = i;
              status = (answered answer).0;
              result = some (answered answer).1;
            }))
            t
          >>= λ q. ok (q.0, q.1, v)

  -- The loop of `_run` over the subtasks from a position on.
  unfoldable pub run_from : ℕ → ℕ → Goal → S → W → Result GoalError (Goal × S × W)
  run_from zero i g s w = ok (g, s, w)
  run_from (suc n) i g s w =
      if g.state == "cancelled"
      then ok (g, s, w)
      else execute_subtask g i s w >>= λ p. run_from n (i + 1) p.0 p.1 p.2

  -- The loop of `resume`.
  unfoldable pub resume_from : ℕ → ℕ → Goal → S → W → Result GoalError (Goal × S × W)
  resume_from zero i g s w = ok (g, s, w)
  resume_from (suc n) i g s w =
      (if is_open i g.subtasks then execute_subtask g i s w else ok (g, s, w)) >>= λ p.
      resume_from n (i + 1) p.0 p.1 p.2

  abbrev final_state : Goal → String
  final_state g = if any is_failed g.subtasks then "failed" else "done"

  unfoldable pub finish : Goal → S → W → Result GoalError (Goal × S × W)
  finish g s w =
      transition backend defaults g (some (final_state g)) none s >>= λ p. ok (p.0, p.1, w)

  abbrev subtask : ℕ → String → Subtask
  subtask n text = record {
    id = team.fresh_id n;
    description = text;
    status = "pending";
    result = "";
    created_at = defaults.now;
  }

  abbrev subtasks_from : ℕ → List String → List Subtask
  subtasks_from n [] = []
  subtasks_from n (t ∷ ts) = subtask n t ∷ subtasks_from (n + 1) ts

  -- One subtask with the goal's description where the brain plans none.
  abbrev planned : String → List String → List Subtask
  planned description [] = subtask 0 description ∷ []
  planned description (t ∷ ts) = subtasks_from 0 (t ∷ ts)

  abbrev new_goal : String → String → Goal
  new_goal description context = record {
    id = defaults.goal_id;
    description = description;
    context = context;
    subtasks = [];
    state = "pending";
    created_at = defaults.now;
    updated_at = defaults.now;
  }

  -- An exception of `_plan` is not caught.
  abbrev pub planned_by : {A : Type 0} → Result String A → Result GoalError A
  planned_by (ok steps) = ok steps
  planned_by (err text) = err (planner text)

  -- `_run` up to the plan.
  unfoldable pub prepare : String → String → S → W → Result GoalError (Goal × S × W)
  prepare description context s w =
      create backend defaults (new_goal description context) s >>= λ t.
      transition backend defaults (new_goal description context) (some "planning") none t >>= λ p.
      let (answer, v) = team.plan p.0 w in
      planned_by answer >>= λ steps.
      let g = record p.0 { subtasks = planned description steps } in
      save backend defaults g p.1 >>= λ t. ok (g, t, v)

  -- `_run` from the plan on.
  unfoldable pub work : Goal → S → W → Result GoalError (Goal × S × W)
  work g s w = transition backend defaults g (some "running") none s >>= λ q.
      run_from (length q.0.subtasks) 0 q.0 q.1 w >>= λ r. finish r.0 r.1 r.2

  -- `_run`
  unfoldable pub run : String → String → S → W → Result GoalError (Goal × S × W)
  run description context s w = prepare description context s w >>= λ p. work p.0 p.1 p.2

  unfoldable pub resume : String → S → W → Result GoalError (Goal × S × W)
  resume goal_id s w = load backend defaults goal_id s >>= λ g.
      resume_from (length g.subtasks) 0 g s w >>= λ r. finish r.0 r.1 r.2

  unfoldable pub retry : String → S → W → Result GoalError (Goal × S × W)
  retry goal_id s w = load backend defaults goal_id s >>= λ g.
      save backend defaults (record g { subtasks = map reopened g.subtasks }) s >>= λ t.
      resume goal_id t w
