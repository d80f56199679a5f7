-- ===== src/Prelude/Dict.antt =====
-- Python's `dict` with text keys: an association list in insertion order. Writing to a key that is
-- there keeps its place.
use Prim.Native.String.{String}
use mathlib.Core.Path.{◌≡◌, refl, sym, subst, ◌∙◌}
use mathlib.Core.Bool.{Bool, true, false}
use mathlib.Core.List.{List, [], ◌∷◌}
use mathlib.Core.Option.{Option, none, some}
use native.Mathlib.Omega.{arith}
use text.Mathlib.TextEquality.{eq_iff}
use swaybot.Prelude.Tests.{if◌then◌else◌, if-true, if-false, Bool-cases}
use swaybot.Prelude.Lists.{All}
use mathlib.Core.Logic.{inl, inr}
use swaybot.Prelude.Equality.{◌==◌, string_eq}

module _ {ℓ} {V : Type ℓ} where
  -- `d.get(key)`
  unfoldable pub lookup : String → List (String × V) → Option V
  lookup key [] = none
  lookup key ((other, found) ∷ rest) = if other == key then some found else lookup key rest

  -- `d[key] = value`
  unfoldable pub insert : String → V → List (String × V) → List (String × V)
  insert key value [] = (key, value) ∷ []
  insert key value ((other, old) ∷ rest) =
      if other == key then (key, value) ∷ rest else (other, old) ∷ insert key value rest

  -- `d.pop(k, None)`
  unfoldable pub erase : String → List (String × V) → List (String × V)
  erase k [] = []
  erase k ((j, w) ∷ m) = let rest = erase k m in if j == k then rest else (j, w) ∷ rest

  -- `k in d`
  abbrev pub contains : String → List (String × V) → Bool
  contains k m = elim (lookup k m) [ none ↦ false | some _ ↦ true ]

  abbrev pub get_or : String → List (String × V) → V → V
  get_or k m d = elim (lookup k m) [ none ↦ d | some v ↦ v ]

  abbrev pub keys : List (String × V) → List String
  keys [] = []
  keys ((j, v) ∷ m) = j ∷ keys m

  pub lookup-insert :
      (key asked : String) (value : V) (dict : List (String × V))
      → lookup asked (insert key value dict)
        ≡ (if key == asked then some value else lookup asked dict)
  unfolding insert lookup
  lookup-insert key asked value [] = refl
  lookup-insert key asked value ((other, old) ∷ rest) = ground (
    arith,
    lookup-insert key asked value rest,
    eq_iff other asked,
    eq_iff other key,
    eq_iff key asked,
  )

  pub lookup-erase :
      (k j : String) (m : List (String × V))
      → lookup j (erase k m) ≡ (if k == j then none else lookup j m)
  unfolding lookup erase
  lookup-erase k j [] = ground arith
  lookup-erase k j ((i, w) ∷ m) =
      ground (arith, lookup-erase k j m, eq_iff i j, eq_iff i k, eq_iff k j)

here_is {ℓ} :
    {V : Type ℓ} {k : String} {v : V} (j : String) (w : V)
    → (j == k) ≡ true
    → ◌≡◌ {A = Option V} (some w) (some v)
    → ◌≡◌ {A = String × V} (j, w) (k, v)
here_is {k = k} j w e q = cc ((eq_iff j k).0 e)

module _ {ℓ κ} {V : Type ℓ} (Holds : String × V → Type κ) where
  -- What holds of every entry, by the key and the value.
  pub All-insert :
      (k : String) (v : V) (m : List (String × V))
      → Holds (k, v)
      → All Holds m
      → All Holds (insert k v m)
  unfolding insert
  All-insert k v [] new old = (new, old)
  All-insert k v ((j, w) ∷ m) new (here, there) = elim (Bool-cases (j == k)) [
    | inl e ↦ subst (All Holds) (sym (if-true _ _ _ e)) (new, there)
    | inr e ↦ subst (All Holds) (sym (if-false _ _ _ e)) (here, All-insert k v m new there)
  ]

  pub All-lookup :
      (k : String) (v : V) (m : List (String × V))
      → lookup k m ≡ some v
      → All Holds m
      → Holds (k, v)
  unfolding lookup
  All-lookup k v ((j, w) ∷ m) found (here, there) = elim (Bool-cases (j == k)) [
    | inl e ↦ subst Holds (here_is j w e (sym (if-true _ _ _ e) ∙ found)) here
    | inr e ↦ All-lookup k v m (sym (if-false _ _ _ e) ∙ found) there
  ]
  All-lookup k v [] found every = cc

pub All-erase {ℓ κ κ'} :
    {V : Type ℓ} (Holds : String × V → Type κ) (Then : String × V → Type κ') (k : String)
    (m : List (String × V))
    → ((j : String) (v : V) → (j == k) ≡ false → Holds (j, v) → Then (j, v))
    → All Holds m
    → All Then (erase k m)
unfolding erase
All-erase Holds Then k [] f every = tt
All-erase Holds Then k ((j, w) ∷ m) f (here, there) = elim (Bool-cases (j == k)) [
  | inl e ↦ subst (All Then) (sym (if-true _ _ _ e)) (All-erase Holds Then k m f there)
  | inr e ↦
      subst (All Then) (sym (if-false _ _ _ e)) (f j w e here, All-erase Holds Then k m f there)
]

pub lookup-nil {ℓ} : {V : Type ℓ} (k : String) → lookup {V = V} k [] ≡ none
unfolding lookup
lookup-nil k = refl

pub ruleset dict_laws = (lookup-insert, lookup-erase, lookup-nil)
