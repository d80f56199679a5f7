-- ===== src/Tools/Schema.antt =====
-- `Tool`, `_check_type` and `Tool.validate_arguments` of swaybot/tools/__init__.py. A tool's function
-- works on a world `W`, and may raise.
use swaybot.Prelude.{
  String, Bool, true, false, Option, none, some, List, [], ◌∷◌, ◌==◌, string_eq, Result, ok, err,
  ◌>>=◌, if◌then◌else◌,
}
use swaybot.Prelude.Dict.{lookup}
use swaybot.Json.{Value, Fields, bool, int, float, str, arr, obj, end, field, field_of}

-- What a call raises: a `ValueError` of the registry, or the tool's own exception with its text.
pub data ToolError : Type 0 where
  missing_name : ToolError
  unknown_tool : String → ToolError
  missing_argument : String → String → ToolError
  bad_type : String → String → String → ToolError
  unexpected_arguments : String → ToolError
  raised : String → ToolError

pub record Tool (W : Type 0) : Type 0 where
  pub name : String
  -- the schema's `properties`, each with its `type`, and `required`
  pub properties : List (String × String)
  pub required : List String
  -- the parameters of the function's signature, and whether it takes `**kwargs`
  pub parameters : List String
  pub has_kwargs : Bool
  pub read_only : Bool
  pub concurrency_safe : Bool
  pub exclusive : Bool
  pub risk_level : String
  pub fn : Fields → W → Result ToolError Value × W

abbrev pub is_number : Value → Bool
is_number (int _ _) = true
is_number (float _) = true
is_number _ = false

abbrev pub is_integer : Value → Bool
is_integer (int _ _) = true
is_integer _ = false

abbrev pub is_string : Value → Bool
is_string (str _) = true
is_string _ = false

abbrev pub is_boolean : Value → Bool
is_boolean (bool _) = true
is_boolean _ = false

abbrev pub is_array : Value → Bool
is_array (arr _) = true
is_array _ = false

abbrev pub is_object : Value → Bool
is_object (obj _) = true
is_object _ = false

-- `_check_type`
unfoldable pub check_type : Value → String → Bool
check_type v t =
    if t == "string"
    then is_string v
    else if t == "integer"
    then is_integer v
    else if t == "number"
    then is_number v
    else if t == "boolean"
    then is_boolean v
    else if t == "array"
    then is_array v
    else if t == "object"
    then is_object v
    else true

abbrev pub has_field : String → Fields → Bool
has_field k fs = elim (field_of k fs) [ none ↦ false | some _ ↦ true ]

module _ {W : Type 0} (t : Tool W) where
  -- The first loop of `validate_arguments`.
  unfoldable pub check_required : List String → Fields → Result ToolError (Unit {0})
  check_required [] args = ok tt
  check_required (p ∷ ps) args =
      if has_field p args then check_required ps args else err (missing_argument t.name p)

  -- A parameter's schema type, "" where there is none.
  abbrev pub type_fits : Option String → Value → Bool
  type_fits none v = true
  type_fits (some ty) v = if ty == "" then true else check_type v ty

  -- The second loop.
  unfoldable pub check_types : Fields → Result ToolError (Unit {0})
  check_types end = ok tt
  check_types (field p v fs) =
      if type_fits (lookup p t.properties) v
      then check_types fs
      else err (bad_type t.name p (elim (lookup p t.properties) [ none ↦ "" | some ty ↦ ty ]))

  unfoldable pub validate_arguments : Fields → Result ToolError (Unit {0})
  unfolding check_required check_types
  validate_arguments args = do done ← check_required t.required args; check_types args
