-- ===== src/Tools/Registry.antt =====
-- `ToolRegistry` of swaybot/tools/__init__.py: names, look-up and `execute`. A provider is the list of
-- its tools and its own `execute`, which may raise.
use Prim.Native.Char.{code}
use swaybot.Prelude.{
  String, Bool, true, false, Option, none, some, List, [], ◌∷◌, ◌++◌, ◌==◌, nat_eq, string_eq,
  Result, ok, err, elem, if◌then◌else◌,
}
use swaybot.Prelude.Dict.{lookup, insert}
use swaybot.Prelude.Text.{◌⧺◌}
use swaybot.Json.{Value, Fields, obj, end, field}
use swaybot.LoopGuards.Repeat.{Action}
use swaybot.Tools.Schema.{
  Tool, ToolError, missing_name, unknown_tool, unexpected_arguments, raised, validate_arguments,
}

pub record Provider (W : Type 0) : Type 0 where
  pub tools : List (Tool W)
  pub execute : String → Value → W → Result ToolError Value × W

pub record ToolRegistry (W : Type 0) : Type 0 where
  pub tools : List (String × Tool W)
  pub providers : List (String × Provider W)

-- `name.split("/", 1)`, `none` where there is no "/".
unfoldable pub split_slash : String → Option (String × String)
split_slash String.[] = none
split_slash (String.◌∷◌ c s) =
    let rest = split_slash s in
    if code c == b'/'
    then some (String.[], s)
    else elim rest [ none ↦ none | some (a, b) ↦ some (String.◌∷◌ c a, b) ]

-- No argument outside the signature.
abbrev pub all_known : List String → Fields → Bool
all_known ps end = true
all_known ps (field k v fs) = if elem k ps then all_known ps fs else false

module _ {W : Type 0} where
  unfoldable pub register_provider : String → Provider W → ToolRegistry W → ToolRegistry W
  register_provider name p r = record r { providers = insert name p r.providers }

  -- `register` of an existing tool.
  unfoldable pub register : String → Tool W → String → ToolRegistry W → ToolRegistry W
  register name t provider r =
      let key = (if provider == "local" then name else provider ⧺ "/" ⧺ name) in
      record r { tools = insert key t r.tools }

  abbrev qualified : String → List (Tool W) → List (String × Tool W)
  qualified prefix [] = []
  qualified prefix (t ∷ ts) = (prefix ⧺ "/" ⧺ t.name, t) ∷ qualified prefix ts

  abbrev provided : List (String × Provider W) → List (String × Tool W)
  provided [] = []
  provided ((name, p) ∷ ps) = qualified name p.tools ++ provided ps

  -- `_iter_registered`
  unfoldable pub registered : ToolRegistry W → List (String × Tool W)
  registered r = r.tools ++ provided r.providers

  -- `get`: the first tool of that qualified name.
  unfoldable pub get : String → ToolRegistry W → Option (Tool W)
  unfolding registered lookup
  get name r = lookup name (registered r)

  -- The call of a local tool, its arguments checked first.
  unfoldable pub call_tool : String → Tool W → Fields → W → Result ToolError Value × W
  call_tool name t args w = elim (validate_arguments t args) [
    | err e ↦ (err e, w)
    | ok _ ↦
        if t.has_kwargs
        then t.fn args w
        else if all_known t.parameters args
        then t.fn args w
        else (err (unexpected_arguments name), w)
  ]

  -- Arguments that are no object make the checks raise.
  unfoldable pub call_value : String → Tool W → Value → W → Result ToolError Value × W
  call_value name t (obj args) w = call_tool name t args w
  call_value name t _ w = (err (raised "arguments are no object"), w)

  unfoldable pub call_local : String → Option (Tool W) → Value → W → Result ToolError Value × W
  call_local name none args w = (err (unknown_tool name), w)
  call_local name (some t) args w = call_value name t args w

  -- The provider that a name with a "/" goes to, with the rest of the name.
  unfoldable pub route : String → ToolRegistry W → Option (Provider W × String)
  unfolding split_slash lookup
  route name r = elim (split_slash name) [
    | none ↦ none
    | some (prefix, rest) ↦ elim (lookup prefix r.providers) [
      | none ↦ none
      | some p ↦ some (p, rest)
    ]
  ]

  unfoldable pub execute : Action → ToolRegistry W → W → Result ToolError Value × W
  execute a r w = if a.name == "" then (err missing_name, w) else elim (route a.name r) [
    | none ↦ call_local a.name (lookup a.name r.tools) a.args w
    | some (p, tool_name) ↦ p.execute tool_name a.args w
  ]
