-- ===== src/Goals/Keys.antt =====
-- The keys of `GoalStateMachine` (swaybot/goals/coordinator.py) in the file backends of
-- swaybot/storage.py.
use text.Mathlib.TextLemmas.{append-eq-nil_iff}
use swaybot.Prelude.{
  String, false, true, ok, ap, ◌≡◌, err, arith, ◌==◌, string_eq, eq_iff, Bool-cases, inl, inr,
}
use swaybot.Prelude.Dict.{insert}
use swaybot.Json.{Value}
use swaybot.Storage.Records.{invalid_key}
use swaybot.Storage.Files.{path, all_safe, all_safe-append}
use swaybot.Storage.InMemory.{Data, in_memory, save-named}
use swaybot.Goals.Machine.{goal_key}

-- The key of a goal is not empty.
pub goal_key-empty : (id : String) → (goal_key id == "") ≡ false
goal_key-empty id = elim (Bool-cases (goal_key id == "")) [
  | inl e ↦
      let (empty, rest) = append-eq-nil_iff.0 ((eq_iff (goal_key id) "").0 e) in
      let b : false ≡ true = ap all_safe empty in absurd (ground (arith, b))
  | inr e ↦ e
]

-- A file backend refuses the key of every goal, for its colon.
pub path-goal_key : (id : String) → path (goal_key id) ≡ err (invalid_key (goal_key id))
unfolding path
path-goal_key id = rw (goal_key-empty id, all_safe-append "goal:" id)

-- The in-memory backend takes every goal.
pub in_memory-accepts :
    (id : String) (v : Value) (s : Data) → (t : Data) × (in_memory.save (goal_key id) v s ≡ ok t)
in_memory-accepts id v s =
    (insert (goal_key id) v s, save-named (goal_key id) v s (goal_key-empty id))
