-- ===== src/Tools/Batch.antt =====
-- `ToolRegistry.execute_batch` of swaybot/tools/__init__.py. Its two loops are one here: it gathers a group
-- of calls and runs it when a call comes that runs alone, or at the end. `threads` says in which order the
-- pool takes the calls of a group; the calls that it leaves out end while the pool is closed. A call is one
-- step of the world.
use swaybot.Prelude.{
  ℕ, zero, suc, Bool, not, ◌||◌, List, [], ◌∷◌, ◌++◌, map, Result, ok, err, ◌>>=◌, ◌==◌, string_eq,
  if◌then◌else◌, when_some,
}
use swaybot.Json.{Value}
use swaybot.LoopGuards.Repeat.{Action}
use swaybot.Tools.Schema.{Tool, ToolError, missing_name, unknown_tool}
use swaybot.Tools.Registry.{ToolRegistry, get, execute}

-- A call of a group: not yet run, or with what it returned or raised.
pub data Slot : Type 0 where
  waiting : Action → Slot
  finished : Result ToolError Value → Slot

-- `[fut.result() for fut in futures]`: the first exception, in the order of the calls.
unfoldable pub collect : List (Result ToolError Value) → Result ToolError (List Value)
collect [] = ok []
collect (answer ∷ answers) = answer >>= λ v. collect answers >>= λ vs. ok (v ∷ vs)

abbrev pub is_parallel : {W : Type 0} → Tool W → Bool
is_parallel t = not (t.exclusive || not t.concurrency_safe)

-- What comes after calls that returned, and their results before its own.
abbrev pub after :
    {W : Type 0}
    → Result ToolError (List Value) × W
    → (W → Result ToolError (List Value) × W)
    → Result ToolError (List Value) × W
after (err e, w) next = (err e, w)
after (ok vs, w) next = let rest = next w in (rest.0 >>= λ more. ok (vs ++ more), rest.1)

-- The results of one call.
abbrev pub single : {W : Type 0} → Result ToolError Value × W → Result ToolError (List Value) × W
single (answer, w) = (answer >>= λ v. ok (v ∷ []), w)

-- The tests of a call: it is refused, joins the others, or runs alone.
abbrev pub dispatch :
    {W : Type 0} {A : Type 0}
    → Result ToolError (Tool W)
    → W
    → Result ToolError A × W
    → Result ToolError A × W
    → Result ToolError A × W
dispatch (err e) w joined alone = (err e, w)
dispatch (ok t) w joined alone = if is_parallel t then joined else alone

module _ {W : Type 0} (registry : ToolRegistry W) where
  -- The tool of a call, or what is raised for want of it.
  unfoldable pub tool_of : Action → Result ToolError (Tool W)
  tool_of action =
      if action.name == ""
      then err missing_name
      else when_some (get action.name registry) (err (unknown_tool action.name)) ok

  -- The call at a position is run, if it waits.
  unfoldable pub finish_at : ℕ → List Slot → W → List Slot × W
  finish_at i [] w = ([], w)
  finish_at zero (waiting action ∷ slots) w =
      let (answer, later) = execute action registry w in (finished answer ∷ slots, later)
  finish_at zero (finished answer ∷ slots) w = (finished answer ∷ slots, w)
  finish_at (suc i) (slot ∷ slots) w =
      let (others, later) = finish_at i slots w in (slot ∷ others, later)

  unfoldable pub finish_each : List ℕ → List Slot → W → List Slot × W
  finish_each [] slots w = (slots, w)
  finish_each (i ∷ order) slots w =
      let (others, later) = finish_at i slots w in finish_each order others later

  -- The end of the `with` block waits for the calls that are left.
  unfoldable pub settle : List Slot → W → List (Result ToolError Value) × W
  settle [] w = ([], w)
  settle (waiting action ∷ slots) w =
      let (answer, w1) = execute action registry w in
      let (answers, w2) = settle slots w1 in (answer ∷ answers, w2)
  settle (finished answer ∷ slots) w =
      let (answers, later) = settle slots w in (answer ∷ answers, later)

  -- The calls one by one, as the reference.
  unfoldable pub one_by_one : List Action → W → Result ToolError (List Value) × W
  one_by_one [] w = (ok [], w)
  one_by_one (action ∷ rest) w =
      let went = after (single (execute action registry w)) (one_by_one rest) in
      dispatch (tool_of action) w went went

  module _ (threads : List Action → List ℕ) where
    -- A group in the thread pool.
    unfoldable pub run_group : List Action → W → Result ToolError (List Value) × W
    run_group group w =
        let (slots, w1) = finish_each (threads group) (map waiting group) w in
        let (answers, w2) = settle slots w1 in (collect answers, w2)

    -- The loops, with the group that is being gathered.
    unfoldable pub batch_from : List Action → List Action → W → Result ToolError (List Value) × W
    batch_from group [] w = run_group group w
    batch_from group (action ∷ rest) w =
        dispatch (tool_of action) w (batch_from (group ++ action ∷ []) rest w) (
          after (run_group group w)
            (λ w1. after (single (execute action registry w1)) (batch_from [] rest)))

    -- `execute_batch`
    unfoldable pub execute_batch : List Action → W → Result ToolError (List Value) × W
    execute_batch actions = batch_from [] actions
