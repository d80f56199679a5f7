-- ===== src/Json.antt =====
-- JSON values, as `json.loads` builds them. An integer is a sign and a magnitude; a float is kept by
-- its `repr`, since the program never computes with one that it read.
pub mod Sorting
use swaybot.Prelude.{
  ℕ, String, Bool, Option, none, some, List, [], ◌∷◌, ◌==◌, string_eq, if◌then◌else◌,
}

mutual
  pub data Value : Type 0 where
    null : Value
    bool : Bool → Value
    int : Bool → ℕ → Value
    float : String → Value
    str : String → Value
    obj : Fields → Value
    arr : Items → Value

  -- An object's fields, in insertion order.
  pub data Fields : Type 0 where
    end : Fields
    field : String → Value → Fields → Fields

  -- The elements of an array.
  pub data Items : Type 0 where
    nil : Items
    cons : Value → Items → Items

-- `d.get(k)`
unfoldable pub field_of : String → Fields → Option Value
field_of k end = none
field_of k (field j v fs) = if j == k then some v else field_of k fs

-- `list(d)`
abbrev pub names_of : Fields → List String
names_of end = []
names_of (field j v fs) = j ∷ names_of fs
