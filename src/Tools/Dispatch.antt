-- ===== src/Tools/Dispatch.antt =====
-- What `ToolRegistry.execute` (swaybot/tools/__init__.py) calls.
use swaybot.Prelude.{
  String, ◌≡◌, ◌⊎◌, refl, true, none, some, arith, Result, ok, err, ◌==◌, string_eq, Bool-cases,
  Option-cases, inl, inr, ◌||◌, Result-cases, subst, sym,
}
use swaybot.Prelude.Dict.{lookup}
use swaybot.Json.{Value, Fields, obj}
use swaybot.LoopGuards.Repeat.{Action}
use swaybot.Tools.Schema.{
  Tool, ToolError, missing_name, unknown_tool, unexpected_arguments, validate_arguments,
}
use swaybot.Tools.Registry.{
  ToolRegistry, all_known, call_tool, call_value, call_local, route, execute,
}

module _ {W : Type 0} where
  -- The function of `t` was called, with arguments that the checks accept.
  pub record Called (t : Tool W) (args : Value) (w : W) (answer : Result ToolError Value × W)
      : Type 0 where
    pub fields : Fields
    pub is_object : args ≡ obj fields
    pub valid : validate_arguments t fields ≡ ok tt
    pub known : (t.has_kwargs || all_known t.parameters fields) ≡ true
    pub result : answer ≡ t.fn fields w

  -- The call was refused before the function, and the world is as it was.
  pub record Refused (w : W) (answer : Result ToolError Value × W) : Type 0 where
    pub why : ToolError
    pub result : answer ≡ (err why, w)

  call_tool-cases :
      (name : String) (t : Tool W) (args : Fields) (w : W)
      → Called t (obj args) w (call_tool name t args w) ⊎ Refused w (call_tool name t args w)
  unfolding call_tool
  call_tool-cases name t args w = elim (Result-cases (validate_arguments t args)) [
    | inr (e, h) ↦ inr (record { why = e; result = rw (h, call_tool) })
    | inl (u, h) ↦ elim (Bool-cases (t.has_kwargs || all_known t.parameters args)) [
      | inl k ↦
          inl (record {
            fields = args;
            is_object = refl;
            valid = h;
            known = k;
            result = ground arith;
          })
      | inr k ↦ inr (record { why = unexpected_arguments name; result = ground arith })
    ]
  ]

  call_value-cases :
      (name : String) (t : Tool W) (args : Value) (w : W)
      → Called t args w (call_value name t args w) ⊎ Refused w (call_value name t args w)
  unfolding call_value
  call_value-cases name t (obj args) w = call_tool-cases name t args w
  call_value-cases name t _ w = inr (record { why = _; result = refl })

  -- A call that is not routed to a provider either reaches the function of the local tool of just
  -- that name, with an object of arguments that passed the checks, or raises and leaves the world as
  -- it was.
  pub execute-cases :
      (a : Action) (r : ToolRegistry W) (w : W)
      → route a.name r ≡ none
      → ((t : Tool W) × (lookup a.name r.tools ≡ some t) × Called t a.args w (execute a r w))
        ⊎ Refused w (execute a r w)
  unfolding execute
  execute-cases a r w h = elim (Bool-cases (a.name == "")) [
    | inl e ↦ inr (record { why = missing_name; result = rw (e, execute) })
    | inr e ↦ elim (Option-cases (lookup a.name r.tools)) [
      | inl n ↦ inr (record {
        why = unknown_tool a.name;
        result = unfold call_local in rw (e, h, n, execute);
      })
      | inr (t, n) ↦
          let same : execute a r w ≡ call_value a.name t a.args w =
            unfold call_local in rw (e, h, n, execute) in
          elim (call_value-cases a.name t a.args w) [
            | inl c ↦ inl (t, n, subst (Called t a.args w) (sym same) c)
            | inr c ↦ inr (subst (Refused w) (sym same) c)
          ]
    ]
  ]
