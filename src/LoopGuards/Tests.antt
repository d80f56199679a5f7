-- ===== src/LoopGuards/Tests.antt =====
-- The guards on short stretches of calls.
use mathlib.Core.List.{Perm}
use Prim.Native.Char.{Char, code}
use text.Mathlib.TextEquality.{codes_equal}
use swaybot.Prelude.{
  ap, ◌∙◌, ℕ, ◌≡◌, ◌≢◌, refl, String, Bool, true, false, Option, none, some, All, List, [], ◌∷◌,
  map, arith, nat_eq, string_eq, eq_iff,
}
use swaybot.Json.{Value, arr, str, obj, cons, nil, end, field}
use swaybot.Json.Sorting.{
  TextOrder, SameValue, in_obj, swapped, sort_value-SameValue, sort_value, insert_field,
}
use swaybot.LoopGuards.Thresholds.{
  validate_thresholds, first_invalid, has_duplicates, insert_sorted, sorted, IsEscalating,
  validate_thresholds-IsEscalating,
}
use swaybot.LoopGuards.Repeat.{Action, RepeatGuard, observe_all, reset}
use swaybot.Prelude.Text.{◌⧺◌, text_leb}
use swaybot.LoopGuards.Chains.{
  call_eq, run_length, latest_first, canonical_call, IsRead, observe_all-run_length,
}
use swaybot.Prelude.Dict.{lookup}
use swaybot.LoopGuards.Convergence.{ConvergenceGuard}

validate_thresholds-IsEscalating_example :
    IsEscalating 2 (3 ∷ 5 ∷ [])
    × Perm {A = ℕ} (3 ∷ 5 ∷ []) (5 ∷ 3 ∷ [])
    × (◌≢◌ {A = List ℕ} (3 ∷ 5 ∷ []) [])
unfolding validate_thresholds first_invalid has_duplicates insert_sorted sorted
validate_thresholds-IsEscalating_example =
    validate_thresholds-IsEscalating (5 ∷ 3 ∷ []) (3 ∷ 5 ∷ []) refl

-- A `json.dumps` of the values of the calls below, and the `json.loads` of its texts.
abbrev dumps : Value → String
dumps (obj end) = "{}"
dumps (obj (field k (str v) end)) = v
dumps (arr (cons (str n) (cons (str args) nil))) = n ⧺ ": " ⧺ args
dumps _ = ""

abbrev any_order : String → String → Bool
any_order s t = true

abbrev of_path : String → Value
of_path text = obj (field "path" (str text) end)

abbrev pair : String → String → Value
pair name args = arr (cons (str name) (cons (str args) nil))

abbrev loads : String → Option Value
loads text = lookup text (
    ("{}", obj end)
    ∷ ("a", of_path "a")
    ∷ ("ls: {}", pair "ls" "{}")
    ∷ ("cat: {}", pair "cat" "{}")
    ∷ ("cat: a", pair "cat" "a")
    ∷ [])

abbrev guard : RepeatGuard
guard = record {
  thresholds = 3 ∷ 5 ∷ [];
  name_thresholds = 5 ∷ 8 ∷ [];
  preview_chars = 10;
  key = none;
  count = 0;
  last_name = none;
  name_count = 0;
}

abbrev calls : List Action
calls =
    record { name = "ls"; args = obj end }
    ∷ record { name = "cat"; args = obj end }
    ∷ record { name = "cat"; args = of_path "a" }
    ∷ record { name = "cat"; args = of_path "a" }
    ∷ []

calls-IsRead : All (IsRead any_order dumps loads) calls
unfolding lookup sort_value insert_field
calls-IsRead = ((refl, refl), ((refl, refl), ((refl, refl), ((refl, refl), tt))))

observe_all-run_length_example :
    ((observe_all any_order dumps calls (reset guard)).count
      ≡ run_length (map (canonical_call any_order dumps) (latest_first [] calls)))
    × ((observe_all any_order dumps calls (reset guard)).name_count
        ≡ run_length (map (λ a. a.name) (latest_first [] calls)))
observe_all-run_length_example =
    observe_all-run_length any_order dumps loads calls guard calls-IsRead

abbrev steady : ConvergenceGuard
steady = record { thresholds = 10 ∷ 15 ∷ []; count = 8; last_step = some 4; step = some 4 }

same_code : (c d : Char) → code c ≡ code d → c ≡ d
same_code c d h = codes_equal c d (ground (arith, h))

antisymm : (a b : String) → text_leb a b ≡ true → text_leb b a ≡ true → a ≡ b
unfolding text_leb
antisymm String.[] String.[] h k = refl
antisymm String.[] (String.◌∷◌ d t) h k = ground (arith, k)
antisymm (String.◌∷◌ c s) String.[] h k = ground (arith, h)
antisymm (String.◌∷◌ c s) (String.◌∷◌ d t) h k =
    let q : code c ≡ code d = ground arith in
    let r : s ≡ t = antisymm s t (ground arith) (ground arith) in
    ap (λ x. String.◌∷◌ x s) (same_code c d q) ∙ ap (λ x. String.◌∷◌ d x) r

trans : (a b c : String) → text_leb a b ≡ true → text_leb b c ≡ true → text_leb a c ≡ true
unfolding text_leb
trans String.[] b c h k = refl
trans (String.◌∷◌ x a) String.[] c h k = ground (arith, h)
trans (String.◌∷◌ x a) (String.◌∷◌ y b) String.[] h k = ground (arith, k)
trans (String.◌∷◌ x a) (String.◌∷◌ y b) (String.◌∷◌ z c) h k = ground (arith, trans a b c)

total : (a b : String) → text_leb a b ≡ false → text_leb b a ≡ true
unfolding text_leb
total String.[] b h = ground (arith, h)
total (String.◌∷◌ x a) String.[] h = refl
total (String.◌∷◌ x a) (String.◌∷◌ y b) h = ground (arith, total a b)

apart : ◌≢◌ {A = String} "b" "a"
apart q = let e : ◌≡◌ {A = Bool} false true = (eq_iff "b" "a").1 q in ground (arith, e)

abbrev text_order : TextOrder text_leb
text_order = record { le_antisymm = antisymm; le_trans = trans; le_total = total }

abbrev swapped_fields :
    SameValue
      (obj (field "b" (str "2") (field "a" (str "1") end)))
      (obj (field "a" (str "1") (field "b" (str "2") end)))
swapped_fields = in_obj (swapped "b" "a" (str "2") (str "1") end apart)

sort_value-SameValue_example :
    sort_value text_leb (obj (field "b" (str "2") (field "a" (str "1") end)))
    ≡ sort_value text_leb (obj (field "a" (str "1") (field "b" (str "2") end)))
sort_value-SameValue_example = sort_value-SameValue text_leb text_order swapped_fields
