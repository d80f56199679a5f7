-- ===== src/Agent/Loop.antt =====
-- `Agent._run` of swaybot/agent.py without planning and reflection: perceive, think, act, observe
-- and persist, until the environment is done. The brain is a parameter that works on the world `W`, as
-- the tools do; so are `str` of a value and of an exception.
use swaybot.Prelude.{
  ℕ, zero, suc, ◌+◌, String, Bool, true, false, Option, none, some, List, [], ◌∷◌, ◌++◌, Eq,
  if◌then◌else◌,
}
use swaybot.Prelude.Float.{Floats}
use swaybot.Prelude.Text.{◌⧺◌}
use swaybot.Json.{Value, obj, str, field, end}
use swaybot.LoopGuards.Repeat.{Action}
use swaybot.Memory.Steps.{Step, CallInfo, task, action, observation}
use swaybot.Memory.Store.{Store, add, add_steps, enter, leave}
use swaybot.Memory.Queries.{iter_short_term}
use swaybot.Memory.Relevance.{query_relevant}
use swaybot.Memory.Compaction.{AutoCompact, compact}
use swaybot.Security.Permission.{PermissionPolicy, reason}
use swaybot.Tools.Schema.{ToolError}
use swaybot.Tools.Registry.{ToolRegistry}
use swaybot.Agent.Environment.{Environment, Entry, StopReason, tool, observe, start}
use swaybot.Agent.Actions.{Outcome, value, denied, failed, execute_action}

-- What the brain is shown of the run and of the memory.
pub record Perception (F : Type 0) : Type 0 where
  pub task : String
  pub step : ℕ
  pub max_steps : ℕ
  pub history : List Entry
  pub relevant : List (Step F)
  pub messages : List (Step F)

-- What the brain answers: the action, and what the call left in `call_info`.
pub record Thought : Type 0 where
  pub action : Action
  pub info : CallInfo
  pub error : Option String

pub data Event : Type 0 where
  run_begin : String → ℕ → Event
  step_begin : ℕ → Action → Event
  step_end : ℕ → Action → String → Option String → Event
  run_end : ℕ → Bool → Bool → Event

pub record Agent (F W : Type 0) : Type 0 where
  pub think : Perception F → W → Thought × W
  pub policy : PermissionPolicy
  pub tools : ToolRegistry W
  -- `auto_compact and compactor`
  pub compactor : Option (AutoCompact F)

pub record Run (F W : Type 0) : Type 0 where
  pub env : Environment
  pub world : W
  pub memory : Option (Store F)
  pub events : List Event

-- What Python gives: its text functions, and the texts of values and exceptions.
pub record Host : Type 0 where
  pub split : String → List String
  pub clean : String → String
  pub strip : String → String
  pub show : Value → String
  pub show_error : ToolError → String
  pub now : String

module _ {F W : Type 0} ⦃e : Eq (Step F)⦄ (fl : Floats F) (host : Host) (agent : Agent F W) where
  abbrev relevant_to : String → Option (Store F) → List (Step F)
  relevant_to name none = []
  relevant_to name (some m) = query_relevant host.split host.clean name "long_term" 5 m.memories

  abbrev messages_of : String → Option (Store F) → List (Step F)
  messages_of name none = []
  messages_of name (some m) = iter_short_term (some name) m.memories

  -- `ContextBuilder.build`
  unfoldable pub perceive : Environment → Option (Store F) → Perception F
  perceive env memory = record {
    task = env.task;
    step = env.step;
    max_steps = env.max_steps;
    history = env.history;
    relevant = relevant_to env.task memory;
    messages = messages_of env.task memory;
  }

  -- The result and the error of `_execute_action`.
  abbrev pub result_text : Outcome → String
  result_text (value v) = host.show v
  result_text (denied d) = "Error: Permission denied: " ⧺ reason d
  result_text (failed x) = "Error: " ⧺ host.show_error x

  abbrev error_text : Outcome → Option String → Option String
  error_text (value v) other = other
  error_text (denied d) other = some ("Permission denied: " ⧺ reason d)
  error_text (failed x) other = some (host.show_error x)

  abbrev action_value : Action → Value
  action_value a = obj (field "name" (str a.name) (field "args" a.args end))

  -- The pair of steps of `_persist_step`.
  abbrev pub pair_of : String → ℕ → Thought → String → List (Step F)
  pair_of name step t result =
      record {
        kind = "experience";
        scope = "short_term";
        source = "brain";
        tags = name ∷ [];
        created_at = host.now;
        body = action step (action_value t.action) t.info;
      }
      ∷ record {
        kind = "experience";
        scope = "short_term";
        source = "agent.run";
        tags = name ∷ [];
        created_at = host.now;
        body = observation step result;
      }
      ∷ []

  abbrev compacted : String → Option (AutoCompact F) → Store F → Store F
  compacted name none m = m
  compacted name (some c) m =
      (compact fl host.split host.clean host.show host.strip host.now c (some name) m).0

  unfoldable pub persist_step : String → ℕ → Thought → String → Option (Store F) → Option (Store F)
  persist_step name step t result none = none
  persist_step name step t result (some m) =
      some (compacted name agent.compactor (add_steps (pair_of name step t result) m))

  -- The body of the `while` loop.
  unfoldable pub iterate : Run F W → Run F W
  iterate r =
      let (t, w1) = agent.think (perceive r.env r.memory) r.world in
      let (o, w2) = execute_action agent.policy agent.tools t.action w1 in
      let text = result_text o in
      let env = observe t.action text r.env in
      record {
        env = env;
        world = w2;
        memory = persist_step env.task env.step t text r.memory;
        events =
            r.events
            ++ step_begin (r.env.step + 1) t.action
              ∷ step_end env.step t.action text (error_text o t.error)
              ∷ [];
      }

  -- `while not env.done`
  unfoldable pub loop : ℕ → Run F W → Run F W
  loop zero r = r
  loop (suc fuel) r = let rest = loop fuel (iterate r) in if r.env.done then r else rest

  abbrev task_step : String → ℕ → Step F
  task_step name limit = record {
    kind = "experience";
    scope = "short_term";
    source = "user";
    tags = name ∷ [];
    created_at = host.now;
    body = task name limit;
  }

  abbrev finished : Option StopReason → Bool
  finished (some tool) = true
  finished _ = false

  -- `_run` with its `_run_body`, without planning and reflection: the whole run is one batch of the
  -- store.
  unfoldable pub run_body : String → ℕ → W → Option (Store F) → Run F W
  run_body name limit w memory =
      let begun : Run F W = record {
        env = start name limit;
        world = w;
        memory = elim memory [
          | none ↦ none
          | some m ↦ some (add fl host.split host.clean (task_step name limit) (enter m))
        ];
        events = run_begin name limit ∷ [];
      } in
      let r = loop (limit + 1) begun in
      record r {
        memory = elim r.memory [ none ↦ none | some m ↦ some (leave m) ];
        events = r.events ++ run_end r.env.step r.env.done (finished r.env.stop_reason) ∷ [];
      }
