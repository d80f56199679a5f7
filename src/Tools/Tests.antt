-- ===== src/Tools/Tests.antt =====
-- Calls of one tool.
use swaybot.Tools.Batch.{
  execute_batch, batch_from, run_group, finish_each, finish_at, settle, collect, tool_of,
  one_by_one,
}
use swaybot.Tools.Todos.{Todo, Answer, todo_write}
use swaybot.Tools.Planning.{IsTask, todo_write-IsTask}
use swaybot.Tools.Concurrency.{one_by_one-execute_batch}
use swaybot.Prelude.{
  String, none, ap, ◌∙◌, inl, inr, Option-cases, arith, ℕ, ◌+◌, ◌≡◌, ◌⊎◌, ◌↔◌, refl, true, false,
  some, [], ◌∷◌, All, ok, string_eq, nat_eq,
}
use swaybot.Prelude.Dict.{lookup, All-lookup}
use swaybot.Json.{Value, Fields, null, arr, nil, cons, str, obj, end, field, field_of}
use swaybot.LoopGuards.Repeat.{Action}
use swaybot.Tools.Schema.{
  check_required, check_types, check_type, Tool, has_field, validate_arguments,
}
use swaybot.Tools.Arguments.{FitsSchema, validate_arguments_iff}
use swaybot.Tools.Registry.{
  get, registered, call_local, call_value, call_tool, ToolRegistry, route, split_slash, execute,
}
use swaybot.Tools.Dispatch.{Called, Refused, execute-cases}

abbrev read_tool : Tool ℕ
read_tool = record {
  name = "read";
  properties = ("path", "string") ∷ [];
  required = "path" ∷ [];
  parameters = "path" ∷ [];
  has_kwargs = false;
  read_only = true;
  concurrency_safe = true;
  exclusive = false;
  risk_level = "low";
  fn = λ args w. (ok null, w + 1);
}

abbrev args : Fields
args = field "path" (str "a.txt") end

validate_arguments_iff_example :
    (validate_arguments read_tool args ≡ ok tt)
    ↔ (All (λ p. has_field p args ≡ true) ("path" ∷ []) × FitsSchema read_tool args)
validate_arguments_iff_example = validate_arguments_iff read_tool args

abbrev registry : ToolRegistry ℕ
registry = record { tools = ("read", read_tool) ∷ []; providers = [] }

abbrev read : Action
read = record { name = "read"; args = obj args }

execute-cases_example :
    ((t : Tool ℕ) × (lookup "read" registry.tools ≡ some t)
      × Called t (obj args) 0 (execute read registry 0))
    ⊎ Refused 0 (execute read registry 0)
unfolding route split_slash
execute-cases_example = execute-cases read registry 0 refl

abbrev peek_tool : Tool ℕ
peek_tool = record read_tool { name = "peek"; fn = λ args w. (ok (str "seen"), w) }

abbrev peeking : ToolRegistry ℕ
peeking = record { tools = ("peek", peek_tool) ∷ []; providers = [] }

abbrev peek : Action
peek = record { name = "peek"; args = obj args }

route-peeking : (name : String) → route name peeking ≡ none
unfolding route lookup
route-peeking name = elim (Option-cases (split_slash name)) [
  | inl e ↦ ground (arith, e)
  | inr (p, e) ↦ ground (arith, e)
]

-- No call of this registry changes the world.
peeking_harmless : (a : Action) (w : ℕ) → (execute a peeking w).1 ≡ w
peeking_harmless a w = elim (execute-cases a peeking w (route-peeking a.name)) [
  | inl (t, found, called) ↦
      ap (λ p. p.1) called.result
      ∙ All-lookup (λ entry. (fields : Fields) (w : ℕ) → (entry.1.fn fields w).1 ≡ w) a.name t
          peeking.tools found ((λ fields w. refl), tt) called.fields w
  | inr refused ↦ ap (λ p. p.1) refused.result
]

-- The pool takes the second call first.
one_by_one-execute_batch_example :
    one_by_one peeking (peek ∷ peek ∷ []) 5 ≡ (ok (str "seen" ∷ str "seen" ∷ []), 5)
unfolding execute_batch batch_from run_group finish_each finish_at settle collect tool_of get
    registered execute call_local call_value call_tool validate_arguments check_required check_types
    check_type route split_slash lookup field_of
one_by_one-execute_batch_example =
    one_by_one-execute_batch peeking (λ group. 1 ∷ 0 ∷ []) (λ a t w is_t p. peeking_harmless a w)
      (peek ∷ peek ∷ []) (str "seen" ∷ str "seen" ∷ []) 5 5 refl

abbrev text_of : Value → String
text_of (str s) = s
text_of v = "a value"

abbrev strip : String → String
strip s = s

abbrev todo : String → String → Value
todo content status = obj (field "content" (str content) (field "status" (str status) end))

abbrev two_todos : Value
two_todos = arr (cons (todo "read" "completed") (cons (todo "write" "pending") nil))

abbrev open_todo : Todo
open_todo = record { content = "read"; status = "pending" }

todo_write-IsTask_example :
    ((answer : Answer) × ((todo_write text_of strip two_todos (open_todo ∷ [])).0 ≡ some answer))
    × All (IsTask text_of strip) (todo_write text_of strip two_todos (open_todo ∷ [])).1
todo_write-IsTask_example =
    todo_write-IsTask text_of strip (λ s. refl) refl two_todos (open_todo ∷ []) ((refl, refl), tt)
