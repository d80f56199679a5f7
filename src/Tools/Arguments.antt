-- ===== src/Tools/Arguments.antt =====
-- What `Tool.validate_arguments` (swaybot/tools/__init__.py) accepts.
use swaybot.Prelude.{
  ℕ, String, Bool, ◌≡◌, ◌↔◌, ◌⊎◌, refl, subst, true, List, [], ◌∷◌, some, All, ok, ◌==◌, string_eq,
  eq_iff, arith, Bool-cases, Option-cases, inl, inr, >>=-eq-ok,
}
use swaybot.Prelude.Dict.{lookup}
use swaybot.Json.{Value, Items, Fields, null, bool, int, float, str, arr, obj, end, field}
use swaybot.Tools.Schema.{
  Tool, has_field, is_string, is_integer, is_number, is_boolean, is_array, is_object, check_type,
  type_fits, check_required, check_types, validate_arguments,
}

-- The values that a schema means by the name of a type, which are all for a name that it does not know.
-- A Boolean is no number.
pub record HasType (type : String) (v : Value) : Type 0 where
  pub text : type ≡ "string" → (s : String) × (v ≡ str s)
  pub integer : type ≡ "integer" → (b : Bool) × (n : ℕ) × (v ≡ int b n)
  pub number :
      type ≡ "number" → ((b : Bool) × (n : ℕ) × (v ≡ int b n)) ⊎ ((x : String) × (v ≡ float x))
  pub boolean : type ≡ "boolean" → (b : Bool) × (v ≡ bool b)
  pub array : type ≡ "array" → (vs : Items) × (v ≡ arr vs)
  pub object : type ≡ "object" → (fs : Fields) × (v ≡ obj fs)

-- `k: v` is one of the arguments.
abbrev pub Given : String → Value → Fields → Type 0
Given k v end = ⊥
Given k v (field j w fs) = ((j ≡ k) × (w ≡ v)) ⊎ Given k v fs

string_of : (v : Value) → is_string v ≡ true → (s : String) × (v ≡ str s)
string_of null h = cc
string_of (bool b) h = cc
string_of (int b n) h = cc
string_of (float x) h = cc
string_of (str s) h = (s, refl)
string_of (arr vs) h = cc
string_of (obj fs) h = cc

integer_of : (v : Value) → is_integer v ≡ true → (b : Bool) × (n : ℕ) × (v ≡ int b n)
integer_of null h = cc
integer_of (bool b) h = cc
integer_of (int b n) h = (b, n, refl)
integer_of (float x) h = cc
integer_of (str s) h = cc
integer_of (arr vs) h = cc
integer_of (obj fs) h = cc

number_of :
    (v : Value)
    → is_number v ≡ true
    → ((b : Bool) × (n : ℕ) × (v ≡ int b n)) ⊎ ((x : String) × (v ≡ float x))
number_of null h = cc
number_of (bool b) h = cc
number_of (int b n) h = inl (b, n, refl)
number_of (float x) h = inr (x, refl)
number_of (str s) h = cc
number_of (arr vs) h = cc
number_of (obj fs) h = cc

boolean_of : (v : Value) → is_boolean v ≡ true → (b : Bool) × (v ≡ bool b)
boolean_of null h = cc
boolean_of (bool b) h = (b, refl)
boolean_of (int b n) h = cc
boolean_of (float x) h = cc
boolean_of (str s) h = cc
boolean_of (arr vs) h = cc
boolean_of (obj fs) h = cc

array_of : (v : Value) → is_array v ≡ true → (vs : Items) × (v ≡ arr vs)
array_of null h = cc
array_of (bool b) h = cc
array_of (int b n) h = cc
array_of (float x) h = cc
array_of (str s) h = cc
array_of (arr vs) h = (vs, refl)
array_of (obj fs) h = cc

object_of : (v : Value) → is_object v ≡ true → (fs : Fields) × (v ≡ obj fs)
object_of null h = cc
object_of (bool b) h = cc
object_of (int b n) h = cc
object_of (float x) h = cc
object_of (str s) h = cc
object_of (arr vs) h = cc
object_of (obj fs) h = (fs, refl)

check_type-HasType : (v : Value) (type : String) → check_type v type ≡ true → HasType type v
unfolding check_type
check_type-HasType v type h =
    let at : (name : String) → type ≡ name → check_type v name ≡ true =
      λ name e. subst (λ ty. check_type v ty ≡ true) e h in
    record {
      text = λ e. string_of v (at "string" e);
      integer = λ e. integer_of v (at "integer" e);
      number = λ e. number_of v (at "number" e);
      boolean = λ e. boolean_of v (at "boolean" e);
      array = λ e. array_of v (at "array" e);
      object = λ e. object_of v (at "object" e);
    }

HasType-check_type : (v : Value) (type : String) → HasType type v → check_type v type ≡ true
unfolding check_type
HasType-check_type v type h =
    let text : type ≡ "string" → is_string v ≡ true = λ e. rw ((h.text e).1) in
    let integer : type ≡ "integer" → is_integer v ≡ true = λ e. rw ((h.integer e).2) in
    let number : type ≡ "number" → is_number v ≡ true =
      λ e. elim (h.number e) [ inl (b, n, q) ↦ rw q | inr (x, q) ↦ rw q ] in
    let boolean : type ≡ "boolean" → is_boolean v ≡ true = λ e. rw ((h.boolean e).1) in
    let array : type ≡ "array" → is_array v ≡ true = λ e. rw ((h.array e).1) in
    let object : type ≡ "object" → is_object v ≡ true = λ e. rw ((h.object e).1) in
    ground (
      arith,
      text,
      integer,
      number,
      boolean,
      array,
      object,
      eq_iff type "string",
      eq_iff type "integer",
      eq_iff type "number",
      eq_iff type "boolean",
      eq_iff type "array",
      eq_iff type "object",
    )

module _ {W : Type 0} (t : Tool W) where
  -- Every argument that the schema gives a type has that type.
  abbrev pub FitsSchema : Fields → Type 0
  FitsSchema args =
      (k : String) (v : Value)
      → Given k v args
      → (type : String) → lookup k t.properties ≡ some type
      → HasType type v

  check_required_iff :
      (ps : List String) (args : Fields)
      → (check_required t ps args ≡ ok tt) ↔ All (λ p. has_field p args ≡ true) ps
  unfolding check_required
  check_required_iff [] args = (λ _. tt, λ _. refl)
  check_required_iff (p ∷ ps) args =
      let (f, g) = check_required_iff ps args in
      elim (Bool-cases (has_field p args)) [
        | inl e ↦ (λ h. (e, f (rw e at h)), λ h. rw e (g h.1))
        | inr e ↦ (λ h. cc (rw e at h), λ h. cc (e, h.0))
      ]

  stated_check :
      (v : Value) (type : String) → type_fits t (some type) v ≡ true → check_type v type ≡ true
  unfolding check_type
  stated_check v type h = elim (Bool-cases (type == "")) [
    | inl e ↦ rw ((eq_iff type "").0 e)
    | inr e ↦ rw e at h
  ]

  check_stated :
      (v : Value) (type : String) → check_type v type ≡ true → type_fits t (some type) v ≡ true
  check_stated v type h = ground (arith, h)

  type_fits_iff :
      (k : String) (v : Value)
      → (type_fits t (lookup k t.properties) v ≡ true)
        ↔ ((type : String) → lookup k t.properties ≡ some type → HasType type v)
  type_fits_iff k v = elim (Option-cases (lookup k t.properties)) [
    | inl unknown ↦ (λ h type found. cc (unknown, found), λ h. rw unknown)
    | inr (stated, known) ↦ (
      λ h type found.
          let same : stated ≡ type = cc (known, found) in
          let fits : type_fits t (some stated) v ≡ true = rw known at h in
          subst (λ ty. HasType ty v) same
            (check_type-HasType v stated (stated_check v stated fits)),
      λ h. rw known (check_stated v stated (HasType-check_type v stated (h stated known))),
    )
  ]

  check_types_iff : (args : Fields) → (check_types t args ≡ ok tt) ↔ FitsSchema args
  unfolding check_types
  check_types_iff end = (λ h k v given. absurd given, λ h. refl)
  check_types_iff (field p v fs) =
      let (f, g) = check_types_iff fs in
      let (there, back) = type_fits_iff p v in
      elim (Bool-cases (type_fits t (lookup p t.properties) v)) [
        | inl e ↦ (
          λ h k w given. elim given [
            | inl (key, value) ↦
                subst
                  (λ (c : String × Value).
                    (type : String) → lookup c.0 t.properties ≡ some type → HasType type c.1)
                  (cc (key, value)) (there e)
            | inr later ↦ f (rw e at h) k w later
          ],
          λ h. rw e (g (λ k w given. h k w (inr given))),
        )
        | inr e ↦ (λ h. cc (rw e at h), λ h. cc (e, back (h p v (inl (refl, refl)))))
      ]

  -- Arguments are accepted exactly when every required one is there and every one that the schema
  -- gives a type has that type: the values of it where it is one of the six JSON types, of which a
  -- Boolean is no number, and all values where it is none of them.
  pub validate_arguments_iff :
      (args : Fields)
      → (validate_arguments t args ≡ ok tt)
        ↔ (All (λ p. has_field p args ≡ true) t.required × FitsSchema args)
  unfolding validate_arguments
  validate_arguments_iff args =
      let (f, g) = check_required_iff t.required args in
      let (h, k) = check_types_iff args in
      (
        λ e. let (u, p, q) = >>=-eq-ok (check_required t t.required args) _ e in (f p, h q),
        λ (r, s). rw (g r) (k s),
      )
