-- ===== src/Security/Tests.antt =====
-- The policy, the guards and the manager on single calls.
use swaybot.Prelude.{
  ◌>>=◌, ℕ, ◌≤◌, ◌≡◌, ◌≢◌, ◌↔◌, refl, String, Bool, true, false, Option, none, some, List, [], ◌∷◌,
  arith, nat_eq, string_eq, elem, any, leb, ok, err,
}
use swaybot.Prelude.Dict.{lookup, insert}
use swaybot.Json.{obj, int, field, end}
use swaybot.Storage.InMemory
use swaybot.Storage.InMemory.{Data, safe_key, in_memory as in_memory_backend}
use swaybot.Security.JsonStore
use swaybot.Security.JsonStore.{fields_with, get-set}
use swaybot.Security.Permission
use swaybot.Security.Permission.{PermissionPolicy, rank, tool_rank, allows}
use swaybot.Security.Policy.{InList, Within, allows_iff}
use swaybot.Security.Commands.{read_only, danger, parts, validate, is_forbidden, allowed}
use swaybot.Security.Shell.{
  Call, prepare, resolve, is_prefix, validate_arguments, check_paths, check_actions, IsSafe,
  prepare-confined,
}
use swaybot.Security.Violations.{in_memory, SecurityManager, is_escalated, status}
use swaybot.Security.Escalation.{
  Event, checked, cleared, handle_all, violations, is_escalated-handle_all,
}

abbrev policy : PermissionPolicy
policy = record { mode = Permission.read_only; denied_tools = "rm" ∷ []; allowed_tools = none }

allows_iff_example : (allows policy "cat" "read" ≡ none) ↔ (
    (elem "cat" policy.denied_tools ≡ false)
    × InList "cat" policy.allowed_tools
    × Within policy.mode (tool_rank "read"))
allows_iff_example = allows_iff policy "cat" "read"

-- "ls", and how it is split.
abbrev ls : List ℕ
ls = 108 ∷ 115 ∷ []

abbrev split : List ℕ → Option (List String)
split command = some ("ls" ∷ "sub" ∷ [])

abbrev is_blank : List ℕ → Bool
is_blank [] = true
is_blank _ = false

abbrev join : List String → String → List String
join root path = "home" ∷ "work" ∷ path ∷ []

abbrev prepared : Call
prepared = record {
  argv = parts "ls" ("sub" ∷ []);
  cwd = "home" ∷ "work" ∷ "sub" ∷ [];
  timeout = 600;
}

not_danger : read_only ≢ danger
not_danger q = ground (arith, q)

prepare-confined_example :
    (any is_forbidden ls ≡ false)
    × ((name : String) × (args : List String) × (prepared.argv ≡ parts name args)
        × (elem name (allowed read_only) ≡ true))
    × IsSafe prepared.argv
    × (is_prefix ("home" ∷ "work" ∷ []) prepared.cwd ≡ true)
    × (1 ≤ prepared.timeout)
    × (prepared.timeout ≤ 600)
unfolding prepare validate resolve is_prefix validate_arguments check_paths check_actions
prepare-confined_example =
    prepare-confined split is_blank join read_only ("home" ∷ "work" ∷ []) ls "sub" 1000 prepared
      not_danger refl

abbrev manager : SecurityManager (List (String × ℕ))
manager = record { threshold = 2; store = [] }

abbrev events : List (Event String ℕ)
events =
    checked "a" (err "escapes")
    ∷ checked "b" (ok 1)
    ∷ checked "a" (err "escapes")
    ∷ cleared "b"
    ∷ []

is_escalated-handle_all_example :
    (is_escalated in_memory "a" (handle_all in_memory events manager)
      ≡ leb 2 (violations in_memory "a" (in_memory.get [] "a") events))
    × ((status in_memory "a" (handle_all in_memory events manager)).violations
        ≡ violations in_memory "a" (in_memory.get [] "a") events)
    × ((status in_memory "a" (handle_all in_memory events manager)).escalated
        ≡ is_escalated in_memory "a" (handle_all in_memory events manager))
is_escalated-handle_all_example = is_escalated-handle_all in_memory "a" events manager

-- The file after a count of 2 is set for "a"; "b" keeps its own.
abbrev counted : Data
counted = ("violations", obj (field "a" (int true 2) end)) ∷ []

get-set_example :
    JsonStore.get in_memory_backend "violations" "b" counted
    ≡ (JsonStore.get in_memory_backend "violations" "b" [] >>= λ old. ok old)
unfolding JsonStore.set JsonStore.load JsonStore.save fields_with InMemory.load InMemory.save
    safe_key lookup insert
get-set_example = get-set in_memory_backend "violations" "a" "b" 2 [] counted refl
