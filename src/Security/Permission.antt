-- ===== src/Security/Permission.antt =====
-- swaybot/permission.py, and the flags of a tool that it reads (`Tool.required_permission` of
-- swaybot/tools/__init__.py).
use swaybot.Prelude.{
  ℕ, String, Bool, false, not, Option, none, some, List, ltb, ◌==◌, string_eq, elem, if◌then◌else◌,
}
use swaybot.Prelude.Text.{◌⧺◌}

pub data PermissionMode : Type 0 where
  read_only workspace_write danger : PermissionMode

-- `_PERMISSION_RANK`
abbrev pub rank : PermissionMode → ℕ
rank read_only = 0
rank workspace_write = 1
rank danger = 2

-- `_TOOL_PERMISSION_RANK.get(required)`
unfoldable pub tool_rank : String → Option ℕ
tool_rank required =
    if required == "read"
    then some 0
    else if required == "write"
    then some 1
    else if required == "danger"
    then some 2
    else none

unfoldable pub permission_level_to_mode : String → PermissionMode
permission_level_to_mode level =
    if level == "low"
    then read_only
    else if level == "medium"
    then workspace_write
    else if level == "high"
    then danger
    else workspace_write

pub record PermissionPolicy : Type 0 where
  pub mode : PermissionMode
  pub denied_tools : List String
  pub allowed_tools : Option (List String)

-- Why a tool is refused.
pub data Denial : Type 0 where
  denied_by_policy : String → Denial
  not_in_allowed_list : String → Denial
  unknown_permission : String → Denial
  requires : String → String → PermissionMode → Denial

abbrev not_listed : String → Option (List String) → Bool
not_listed tool none = false
not_listed tool (some tools) = not (elem tool tools)

abbrev rank_denial : PermissionPolicy → String → String → Option ℕ → Option Denial
rank_denial p tool required none = some (unknown_permission required)
rank_denial p tool required (some r) =
    if ltb (rank p.mode) r then some (requires tool required p.mode) else none

-- `allows(tool_name, required_permission)`: `none` is `(True, "")`.
unfoldable pub allows : PermissionPolicy → String → String → Option Denial
unfolding tool_rank
allows p tool required =
    if elem tool p.denied_tools
    then some (denied_by_policy tool)
    else if not_listed tool p.allowed_tools
    then some (not_in_allowed_list tool)
    else rank_denial p tool required (tool_rank required)

abbrev pub mode_text : PermissionMode → String
mode_text read_only = "read-only"
mode_text workspace_write = "workspace-write"
mode_text danger = "danger"

-- The reason, as `allows` words it.
unfoldable pub reason : Denial → String
reason (denied_by_policy tool) = "tool '" ⧺ tool ⧺ "' is denied by policy"
reason (not_in_allowed_list tool) = "tool '" ⧺ tool ⧺ "' is not in the allowed list"
reason (unknown_permission required) = "unknown required permission '" ⧺ required ⧺ "'"
reason (requires tool required mode) =
    "tool '"
    ⧺ tool
    ⧺ "' requires "
    ⧺ required
    ⧺ " permission (current mode: "
    ⧺ mode_text mode
    ⧺ ")"

-- `Tool.required_permission`
unfoldable pub required_permission : Bool → String → String
required_permission is_read_only risk_level =
    if risk_level == "high" then "danger" else if not is_read_only then "write" else "read"
