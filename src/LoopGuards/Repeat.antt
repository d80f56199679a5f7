-- ===== src/LoopGuards/Repeat.antt =====
-- `RepeatCallGuard` of swaybot/loop_guards.py. The fixed wording of a reminder is its constructor.
-- `json.dumps` and Python's order of texts are parameters.
use Prim.Native.Char.{code}
use swaybot.Prelude.{
  ℕ, ◌+◌, ◌-◌, String, Bool, false, Option, none, some, List, [], ◌∷◌, ltb, leb, ◌==◌, nat_eq,
  string_eq, elem, length, take, Result, ok, err, ◌>>=◌, if◌then◌else◌,
}
use swaybot.Json.{Value, arr, str, nil, cons}
use swaybot.Json.Sorting.{sort_value}
use swaybot.LoopGuards.Thresholds.{ThresholdError, validate_thresholds}

-- An action: the tool's name ("" where the key is missing) and its arguments.
pub record Action : Type 0 where
  pub name : String
  pub args : Value

pub data Notice : Type 0 where
  gentle_reminder : Notice
  gentle_name_reminder : Notice
  -- tool, consecutive calls, the preview of the arguments, and how many characters were cut off
  detailed_reminder : String → ℕ → List ℕ → ℕ → Notice

pub data GuardError : Type 0 where
  bad_thresholds : ThresholdError → GuardError
  bad_preview : GuardError

pub record RepeatGuard : Type 0 where
  pub thresholds : List ℕ
  pub name_thresholds : List ℕ
  pub preview_chars : ℕ
  pub key : Option String
  pub count : ℕ
  pub last_name : Option String
  pub name_count : ℕ

abbrev validated : List ℕ → Result GuardError (List ℕ)
validated ts = elim (validate_thresholds ts) [ ok us ↦ ok us | err e ↦ err (bad_thresholds e) ]

abbrev given_or : Option (List ℕ) → List ℕ → List ℕ
given_or none ts = ts
given_or (some us) ts = us

-- `RepeatCallGuard(thresholds, arguments_preview_chars, name_only_thresholds)`
unfoldable pub make_guard : Option (List ℕ) → ℕ → Option (List ℕ) → Result GuardError RepeatGuard
unfolding validate_thresholds
make_guard thresholds preview_chars name_thresholds = do
  ts ← validated (given_or thresholds (3 ∷ 5 ∷ 8 ∷ []))
  names ← validated (given_or name_thresholds (5 ∷ 8 ∷ []))
  if ltb preview_chars 1
      then err bad_preview
      else ok (record {
        thresholds = ts;
        name_thresholds = names;
        preview_chars = preview_chars;
        key = none;
        count = 0;
        last_name = none;
        name_count = 0;
      })

unfoldable pub reset : RepeatGuard → RepeatGuard
reset g = record g { key = none; count = 0; last_name = none; name_count = 0 }

-- The characters of a text.
abbrev codes : String → List ℕ
codes String.[] = []
codes (String.◌∷◌ c s) = code c ∷ codes s

unfoldable pub detailed : String → ℕ → String → ℕ → Notice
detailed tool count canonical preview_chars =
    let text = codes canonical in
    if leb (length text) preview_chars
    then detailed_reminder tool count text 0
    else detailed_reminder tool count (take preview_chars text) (length text - preview_chars)

-- One chain: the length of the run that a call with key `k` continues or starts.
unfoldable pub advance : Option String → ℕ → String → ℕ
advance none count k = 1
advance (some j) count k = if k == j then count + 1 else 1

abbrev is_first : ℕ → List ℕ → Bool
is_first n [] = false
is_first n (t ∷ ts) = n == t

-- The reminder of one chain, at a threshold only.
unfoldable pub chain_notice : List ℕ → ℕ → Notice → Notice → Option Notice
chain_notice thresholds count gentle full =
    if elem count thresholds
    then (if is_first count thresholds then some gentle else some full)
    else none

-- `a or b`
abbrev pub or_else : Option Notice → Option Notice → Option Notice
or_else (some n) other = some n
or_else none other = other

module _ (le : String → String → Bool) (dumps : Value → String) where
  -- `_canonicalize`
  unfoldable pub canonicalize : Value → String
  canonicalize args = dumps (sort_value le args)

  -- `json.dumps([name, canonical])`
  unfoldable pub call_key : Action → String
  call_key a = dumps (arr (cons (str a.name) (cons (str (canonicalize a.args)) nil)))

  unfoldable pub observe : Action → RepeatGuard → RepeatGuard × Option Notice
  unfolding advance chain_notice
  observe a g =
      let k = call_key a in
      let count = advance g.key g.count k in
      let name_count = advance g.last_name g.name_count a.name in
      let canonical = canonicalize a.args in
      (
        record g { key = some k; count = count; last_name = some a.name; name_count = name_count },
        or_else
            (chain_notice g.thresholds count gentle_reminder
              (detailed a.name count canonical g.preview_chars))
            (chain_notice g.name_thresholds name_count gentle_name_reminder
              (detailed a.name name_count canonical g.preview_chars)),
      )

  -- A stretch of calls, the oldest first.
  unfoldable pub observe_all : List Action → RepeatGuard → RepeatGuard
  observe_all [] g = g
  observe_all (a ∷ acts) g = observe_all acts (observe a g).0
