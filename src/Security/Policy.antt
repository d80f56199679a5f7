-- ===== src/Security/Policy.antt =====
-- What `PermissionPolicy.allows` (swaybot/permission.py) lets through.
use swaybot.Prelude.{
  ℕ, ◌≤◌, ◌≡◌, ◌↔◌, String, Bool, true, false, Option, none, some, List, arith, ◌==◌, string_eq,
  elem, Bool-cases, inl, inr, if◌then◌else◌,
}
use swaybot.Security.Permission.{
  PermissionMode, read_only, rank, tool_rank, PermissionPolicy, allows, required_permission,
}

abbrev pub InList : String → Option (List String) → Type 0
InList t none = Unit
InList t (some tools) = elem t tools ≡ true

-- The rank of the required permission is known and at most the mode's.
abbrev pub Within : PermissionMode → Option ℕ → Type 0
Within m none = ⊥
Within m (some r) = r ≤ rank m

-- A tool is allowed exactly when it is not denied, stands in the allowed list if there is one, and
-- requires a permission that is known and within the mode.
pub allows_iff :
    (p : PermissionPolicy) (tool required : String)
    → (allows p tool required ≡ none) ↔ (
        (elem tool p.denied_tools ≡ false)
        × InList tool p.allowed_tools
        × Within p.mode (tool_rank required))
unfolding allows
allows_iff p tool required = ground arith

-- A policy that differs in the mode alone, and has a mode of a higher rank, allows what the first
-- allows.
pub allows_mono :
    (p : PermissionPolicy) (mode : PermissionMode) (tool required : String)
    → rank p.mode ≤ rank mode
    → allows p tool required ≡ none
    → allows (record p { mode = mode }) tool required ≡ none
unfolding allows
allows_mono p mode tool required h a = ground arith

tool_rank-required :
    (is_read_only : Bool) (risk : String)
    → tool_rank (required_permission is_read_only risk)
      ≡ (if risk == "high" then some 2 else if is_read_only then some 0 else some 1)
unfolding tool_rank required_permission
tool_rank-required true risk = elim (Bool-cases (risk == "high")) [ inl e ↦ rw e | inr e ↦ rw e ]
tool_rank-required false risk = elim (Bool-cases (risk == "high")) [ inl e ↦ rw e | inr e ↦ rw e ]

-- In read-only mode a tool is allowed only if it is marked read-only and is not of high risk.
pub allows-read_only :
    (p : PermissionPolicy) (tool risk : String) (is_read_only : Bool)
    → p.mode ≡ read_only
    → allows p tool (required_permission is_read_only risk) ≡ none
    → (is_read_only ≡ true) × ((risk == "high") ≡ false)
allows-read_only p tool risk is_read_only h a =
    let w = ((allows_iff p tool (required_permission is_read_only risk)).0 a).2 in
    ground (arith, tool_rank-required is_read_only risk, w)
