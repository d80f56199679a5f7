-- ===== src/Goals/Goal.antt =====
-- `Subtask`, `Goal`, `asdict` and `GoalStateMachine._deserialize` of swaybot/goals/coordinator.py. The
-- source keeps a stored field of another type as it is; here it is an error of its own.
use swaybot.Prelude.{String, ◌≡◌, refl, Option, none, some, List, [], ◌∷◌, Result, ok, err, ◌>>=◌}
use swaybot.Json.{Value, Items, Fields, str, arr, obj, nil, cons, end, field, field_of}
use swaybot.Storage.Records.{StorageError}

pub record Subtask : Type 0 where
  pub id : String
  pub description : String
  pub status : String
  pub result : String
  pub created_at : String

pub record Goal : Type 0 where
  pub id : String
  pub description : String
  pub context : String
  pub subtasks : List Subtask
  pub state : String
  pub created_at : String
  pub updated_at : String

pub data GoalError : Type 0 where
  storage : StorageError → GoalError
  missing : String → GoalError
  untyped : GoalError
  -- what the agents' factory or the brain raises while the goal is planned, by its text
  planner : String → GoalError

-- `asdict(goal)`
unfoldable pub subtask_fields : Subtask → Fields
subtask_fields s = field "id" (str s.id) (
    field "description" (str s.description) (
      field "status" (str s.status)
        (field "result" (str s.result) (field "created_at" (str s.created_at) end))))

unfoldable pub subtask_items : List Subtask → Items
subtask_items [] = nil
subtask_items (s ∷ ss) = cons (obj (subtask_fields s)) (subtask_items ss)

unfoldable pub goal_fields : Goal → Fields
goal_fields g = field "id" (str g.id) (
    field "description" (str g.description) (
      field "context" (str g.context) (
        field "subtasks" (arr (subtask_items g.subtasks)) (
          field "state" (str g.state)
            (field "created_at" (str g.created_at) (field "updated_at" (str g.updated_at) end))))))

abbrev text : Value → Result GoalError String
text (str s) = ok s
text _ = err untyped

-- The field, or its default where it is missing.
abbrev text_at : String → String → Fields → Result GoalError String
text_at k default fs = elim (field_of k fs) [ none ↦ ok default | some v ↦ text v ]

-- The defaults that a missing id or time takes.
pub record Defaults : Type 0 where
  pub goal_id : String
  pub subtask_id : String
  pub now : String

module _ (defaults : Defaults) where
  abbrev subtask_of : Value → Result GoalError Subtask
  subtask_of (obj fs) = text_at "id" defaults.subtask_id fs >>= λ id.
      text_at "description" "" fs >>= λ description. text_at "status" "pending" fs >>= λ status.
      text_at "result" "" fs >>= λ result. text_at "created_at" defaults.now fs >>= λ created_at.
      ok (record {
        id = id;
        description = description;
        status = status;
        result = result;
        created_at = created_at;
      })
  subtask_of _ = err untyped

  unfoldable pub subtasks_of : Items → Result GoalError (List Subtask)
  subtasks_of nil = ok []
  subtasks_of (cons v vs) = subtask_of v >>= λ s. subtasks_of vs >>= λ ss. ok (s ∷ ss)

  abbrev list_at : Option Value → Result GoalError (List Subtask)
  list_at none = ok []
  list_at (some (arr vs)) = subtasks_of vs
  list_at (some _) = err untyped

  unfoldable pub deserialize : Fields → Result GoalError Goal
  deserialize fs = list_at (field_of "subtasks" fs) >>= λ subtasks.
      text_at "id" defaults.goal_id fs >>= λ id. text_at "description" "" fs >>= λ description.
      text_at "context" "" fs >>= λ context. text_at "state" "pending" fs >>= λ state.
      text_at "created_at" defaults.now fs >>= λ created_at.
      text_at "updated_at" defaults.now fs >>= λ updated_at. ok (record {
        id = id;
        description = description;
        context = context;
        subtasks = subtasks;
        state = state;
        created_at = created_at;
        updated_at = updated_at;
      })

  subtasks_of-items : (ss : List Subtask) → subtasks_of (subtask_items ss) ≡ ok ss
  unfolding subtasks_of subtask_items subtask_fields field_of
  subtasks_of-items [] = refl
  subtasks_of-items (s ∷ ss) = rw (subtasks_of-items ss)

  -- What `asdict` makes of a goal is read back as that goal.
  pub deserialize-goal_fields : (g : Goal) → deserialize (goal_fields g) ≡ ok g
  unfolding deserialize goal_fields field_of
  deserialize-goal_fields g = rw (subtasks_of-items g.subtasks)
