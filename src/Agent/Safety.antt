-- ===== src/Agent/Safety.antt =====
-- What a run of swaybot/agent.py may do to the world: the calls that `_execute_action` lets through.
use swaybot.Prelude.{
  ℕ, ◌+◌, ◌≡◌, refl, sym, subst, String, true, false, Option, none, some, List, [], ◌∷◌, ◌++◌,
  arith, Result, ◌==◌, string_eq, Eq, Bool-cases, Option-cases, inl, inr,
}
use swaybot.Prelude.Dict.{lookup}
use swaybot.Prelude.Float.{Floats}
use swaybot.Json.{Value, Fields}
use swaybot.LoopGuards.Repeat.{Action}
use swaybot.Memory.Steps.{Step}
use swaybot.Memory.Store.{Store}
use swaybot.Security.Permission.{PermissionPolicy, Denial, allows, required_permission}
use swaybot.Tools.Schema.{Tool, ToolError, missing_name}
use swaybot.Tools.Registry.{ToolRegistry, Provider, registered, get, route, execute}
use swaybot.Tools.Dispatch.{execute-cases}
use swaybot.Agent.Actions.{allowed, outcome, execute_action}
use swaybot.Agent.Loop.{Agent, Host, Run, Perception, iterate, run_body}
use swaybot.Agent.Runs.{loop-induction}

lookup-append {ℓ} :
    {V : Type ℓ} (k : String) (m n : List (String × V)) (v : V)
    → lookup k m ≡ some v
    → lookup k (m ++ n) ≡ some v
unfolding lookup
lookup-append k [] n v h = ground arith
lookup-append k ((j, u) ∷ m) n v h = ground (arith, lookup-append k m n v)

module _ {W : Type 0} (Q : W → Type 0) where
  -- The local tools that the policy lets through keep `Q`, and so does each provider that a name leads
  -- to.
  pub record Keeps (p : PermissionPolicy) (r : ToolRegistry W) : Type 0 where
    pub local :
        (t : Tool W) (name : String)
        → lookup name r.tools ≡ some t
        → allows p t.name (required_permission t.read_only t.risk_level) ≡ none
        → (args : Fields) (w : W) → Q w
        → Q (t.fn args w).1
    pub provided :
        (q : Provider W) (name rest : String)
        → route name r ≡ some (q, rest)
        → (args : Value) (w : W) → Q w
        → Q (q.execute rest args w).1

  outcome-world : (x : Result ToolError Value × W) → (outcome x).1 ≡ x.1
  outcome-world (Result.ok v, w) = refl
  outcome-world (Result.err e, w) = refl

  allowed-local :
      (p : PermissionPolicy) (r : ToolRegistry W) (name : String) (t : Tool W)
      → lookup name r.tools ≡ some t
      → allowed p r name ≡ none
      → allows p t.name (required_permission t.read_only t.risk_level) ≡ none
  unfolding allowed get registered
  allowed-local p r name t h a =
      let g : get name r ≡ some t = lookup-append name r.tools _ t h in ground (arith, g)

  execute-unnamed :
      (r : ToolRegistry W) (a : Action) (w : W)
      → (a.name == "") ≡ true
      → execute a r w ≡ (Result.err missing_name, w)
  unfolding execute
  execute-unnamed r a w e = rw (e, execute)

  execute-routed :
      (r : ToolRegistry W) (a : Action) (w : W) (s : Provider W) (rest : String)
      → (a.name == "") ≡ false
      → route a.name r ≡ some (s, rest)
      → execute a r w ≡ s.execute rest a.args w
  unfolding execute
  execute-routed r a w s rest e n = rw (e, n, execute)

  execute_action-let_through :
      (p : PermissionPolicy) (r : ToolRegistry W) (a : Action) (w : W)
      → allowed p r a.name ≡ none
      → (execute_action p r a w).1 ≡ (execute a r w).1
  unfolding execute_action
  execute_action-let_through p r a w n = rw (n, execute_action) (outcome-world (execute a r w))

  execute_action-stopped :
      (p : PermissionPolicy) (r : ToolRegistry W) (a : Action) (w : W) (d : Denial)
      → allowed p r a.name ≡ some d
      → (execute_action p r a w).1 ≡ w
  unfolding execute_action
  execute_action-stopped p r a w d n = rw (n, execute_action)

  execute-keeps :
      (p : PermissionPolicy) (r : ToolRegistry W) (a : Action) (w : W)
      → Keeps p r
      → allowed p r a.name ≡ none
      → Q w
      → Q (execute a r w).1
  execute-keeps p r a w k h q = elim (Option-cases (route a.name r)) [
    | inl n ↦ elim (execute-cases a r w n) [
      | inl (t, l, c) ↦
          subst (λ x. Q x.1) (sym c.result)
            (k.local t a.name l (allowed-local p r a.name t l h) c.fields w q)
      | inr c ↦ subst (λ x. Q x.1) (sym c.result) q
    ]
    | inr ((s, rest), n) ↦ elim (Bool-cases (a.name == "")) [
      | inl e ↦ subst (λ x. Q x.1) (sym (execute-unnamed r a w e)) q
      | inr e ↦
          subst (λ x. Q x.1) (sym (execute-routed r a w s rest e n))
            (k.provided s a.name rest n a.args w q)
    ]
  ]

  execute_action-keeps :
      (p : PermissionPolicy) (r : ToolRegistry W) (a : Action) (w : W)
      → Keeps p r
      → Q w
      → Q (execute_action p r a w).1
  execute_action-keeps p r a w k q = elim (Option-cases (allowed p r a.name)) [
    | inl n ↦ subst Q (sym (execute_action-let_through p r a w n)) (execute-keeps p r a w k n q)
    | inr (d, n) ↦ subst Q (sym (execute_action-stopped p r a w d n)) q
  ]

  module _ {F : Type 0} ⦃e : Eq (Step F)⦄ (fl : Floats F) (host : Host) (agent : Agent F W) where
    iterate-keeps :
        (r : Run F W)
        → ((seen : Perception F) (w : W) → Q w → Q (agent.think seen w).1)
        → Keeps agent.policy agent.tools
        → Q r.world
        → Q (iterate fl host agent r).world
    unfolding iterate
    iterate-keeps r thinks k q =
        execute_action-keeps agent.policy agent.tools _ _ k (thinks _ r.world q)

    -- What the brain keeps, and what the providers and those local tools keep that the policy lets
    -- through, a whole run keeps: no other tool is called.
    pub run_body-keeps :
        (name : String) (limit : ℕ) (w : W) (memory : Option (Store F))
        → ((seen : Perception F) (v : W) → Q v → Q (agent.think seen v).1)
        → Keeps agent.policy agent.tools
        → Q w
        → Q (run_body fl host agent name limit w memory).world
    unfolding run_body
    run_body-keeps name limit w memory thinks k q =
        loop-induction fl host agent (λ r. Q r.world) (λ r d h. iterate-keeps r thinks k h)
          (limit + 1) _ q
