-- ===== src/Agent/Actions.antt =====
-- `_allowed` and `_execute_action` of swaybot/agent.py: the policy stands before the registry.
use swaybot.Prelude.{
  String, ◌≡◌, false, Option, none, some, arith, Result, ok, err, string_eq, Option-cases, inl, inr,
  ◌⊎◌, eq_iff, ap,
}
use swaybot.Json.{Value}
use swaybot.LoopGuards.Repeat.{Action}
use swaybot.Security.Permission.{PermissionPolicy, Denial, allows, required_permission, read_only}
use swaybot.Security.Policy.{allows-read_only}
use swaybot.Tools.Schema.{Tool, ToolError}
use swaybot.Tools.Registry.{ToolRegistry, get, execute}

-- What a step got: the value of the tool, a denial, or an exception.
pub data Outcome : Type 0 where
  value : Value → Outcome
  denied : Denial → Outcome
  failed : ToolError → Outcome

module _ {W : Type 0} where
  -- `_allowed`: a name that the registry does not list is let through.
  unfoldable pub allowed : PermissionPolicy → ToolRegistry W → String → Option Denial
  allowed p r name = elim (get name r) [
    | none ↦ none
    | some t ↦ allows p t.name (required_permission t.read_only t.risk_level)
  ]

  abbrev pub outcome : Result ToolError Value × W → Outcome × W
  outcome (ok v, w) = (value v, w)
  outcome (err e, w) = (failed e, w)

  -- `_execute_action`
  unfoldable pub execute_action : PermissionPolicy → ToolRegistry W → Action → W → Outcome × W
  execute_action p r a w = elim (allowed p r a.name) [
    | some d ↦ (denied d, w)
    | none ↦ outcome (execute a r w)
  ]

  -- A listed tool that the policy refuses is not called: the answer is the denial, and the world is as
  -- it was.
  pub execute_action-denied :
      (p : PermissionPolicy) (r : ToolRegistry W) (a : Action) (w : W) (t : Tool W) (d : Denial)
      → get a.name r ≡ some t
      → allows p t.name (required_permission t.read_only t.risk_level) ≡ some d
      → execute_action p r a w ≡ (denied d, w)
  unfolding execute_action allowed
  execute_action-denied p r a w t d g h = ground arith

  -- In read-only mode a listed tool that is not marked read-only, or is of high risk, never touches the
  -- world.
  pub execute_action-read_only :
      (p : PermissionPolicy) (r : ToolRegistry W) (a : Action) (w : W) (t : Tool W)
      → p.mode ≡ read_only
      → get a.name r ≡ some t
      → ((t.read_only ≡ false) ⊎ (t.risk_level ≡ "high"))
      → (execute_action p r a w).1 ≡ w
  execute_action-read_only p r a w t m g h =
      elim (Option-cases (allows p t.name (required_permission t.read_only t.risk_level))) [
        | inl e ↦
            let (marked, mild) = allows-read_only p t.name t.risk_level t.read_only m e in
            absurd (ground (arith, h, eq_iff t.risk_level "high"))
        | inr (d, e) ↦ ap (λ o. o.1) (execute_action-denied p r a w t d g e)
      ]
