-- ===== src/Agent/Tests.antt =====
-- Runs of one agent with one tool.
use swaybot.Prelude.{
  ℕ, ◌+◌, String, ◌≡◌, refl, ap, subst, false, Option, none, some, [], ◌∷◌, arith, ok, ◌==◌,
  string_eq, nat_eq, if◌then◌else◌, Bool-cases, Option-cases, inl, inr,
}
use swaybot.Prelude.Dict.{lookup}
use swaybot.Prelude.Float.{tenths}
use swaybot.Json.{Value, Fields, null, obj, end}
use swaybot.LoopGuards.Repeat.{Action}
use swaybot.Memory.Sameness.{step_eq}
use swaybot.Memory.Store.{Store}
use swaybot.Security.Permission.{
  PermissionPolicy, read_only, allows, tool_rank, required_permission,
}
use swaybot.Tools.Schema.{Tool}
use swaybot.Tools.Registry.{Provider, ToolRegistry, route, registered, get, split_slash}
use swaybot.Agent.Actions.{execute_action, execute_action-read_only}
use swaybot.Agent.Loop.{Perception, Thought, Agent, Host, run_body}
use swaybot.Agent.Runs.{IsFinished, run_body-IsFinished}
use swaybot.Agent.Safety.{run_body-keeps}

abbrev write_tool : Tool ℕ
write_tool = record {
  name = "write";
  properties = [];
  required = [];
  parameters = [];
  has_kwargs = false;
  read_only = false;
  concurrency_safe = false;
  exclusive = false;
  risk_level = "low";
  fn = λ args w. (ok null, w + 1);
}

abbrev tools : ToolRegistry ℕ
tools = record { tools = ("write", write_tool) ∷ []; providers = [] }

abbrev policy : PermissionPolicy
policy = record { mode = read_only; denied_tools = []; allowed_tools = none }

abbrev call : String → Action
call name = record { name = name; args = obj end }

-- Writes once, then ends the run.
abbrev thinks : Perception ℕ → ℕ → Thought × ℕ
thinks seen w = (
  record {
    action = call (if seen.step == 0 then "write" else "done");
    info = record {
      model_input_messages = none;
      raw_output = none;
      token_usage = none;
      duration_ms = none;
    };
    error = none;
  },
  w,
)

abbrev agent : Agent ℕ ℕ
agent = record { think = thinks; policy = policy; tools = tools; compactor = none }

abbrev host : Host
host = record {
  split = λ s. s ∷ [];
  clean = λ s. s;
  strip = λ s. s;
  show = λ v. "shown";
  show_error = λ e. "error";
  now = "now";
}

abbrev no_store : Option (Store ℕ)
no_store = none

run_body-IsFinished_example : IsFinished 5 (run_body tenths host agent "note" 5 0 no_store).env
run_body-IsFinished_example = run_body-IsFinished tenths host agent "note" 5 0 no_store

execute_action-read_only_example : (execute_action policy tools (call "write") 0).1 ≡ 0
unfolding get registered lookup
execute_action-read_only_example =
    execute_action-read_only policy tools (call "write") 0 write_tool refl refl (inl refl)

-- The only tool is refused, so the world stays at 0.
tool_is : (name : String) (t : Tool ℕ) → lookup name tools.tools ≡ some t → write_tool ≡ t
unfolding lookup
tool_is name t l = elim (Bool-cases ("write" == name)) [
  | inl e ↦
      let l' : some write_tool ≡ some t = rw e at l in
      ap (λ o. elim o [ none ↦ write_tool | some u ↦ u ]) l'
  | inr e ↦
      let l' : ◌≡◌ {A = Option (Tool ℕ)} none (some t) = rw e at l in absurd (ground (arith, l'))
]

keeps_local :
    (t : Tool ℕ) (name : String)
    → lookup name tools.tools ≡ some t
    → allows policy t.name (required_permission t.read_only t.risk_level) ≡ none
    → (args : Fields) (w : ℕ) → w ≡ 0
    → (t.fn args w).1 ≡ 0
unfolding allows tool_rank required_permission
keeps_local t name l =
    subst
      (λ t.
        allows policy t.name (required_permission t.read_only t.risk_level) ≡ none
        → (args : Fields) (w : ℕ) → w ≡ 0
        → (t.fn args w).1 ≡ 0)
      (tool_is name t l) (λ a args w q. absurd (ground (arith, a)))

keeps_provided :
    (q : Provider ℕ) (name rest : String)
    → route name tools ≡ some (q, rest)
    → (args : Value) (w : ℕ) → w ≡ 0
    → (q.execute rest args w).1 ≡ 0
unfolding route lookup
keeps_provided q name rest r args w h = elim (Option-cases (split_slash name)) [
  | inl n ↦
      let r' : ◌≡◌ {A = Option (Provider ℕ × String)} none (some (q, rest)) = rw (n, route) at r in
      absurd (ground (arith, r'))
  | inr (p, n) ↦
      let r' : ◌≡◌ {A = Option (Provider ℕ × String)} none (some (q, rest)) = rw (n, route) at r in
      absurd (ground (arith, r'))
]

run_body-keeps_example : (run_body tenths host agent "note" 5 0 no_store).world ≡ 0
run_body-keeps_example =
    run_body-keeps (λ w. w ≡ 0) tenths host agent "note" 5 0 no_store (λ seen w q. q)
      (record { local = keeps_local; provided = keeps_provided }) refl
