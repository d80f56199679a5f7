-- ===== src/LoopGuards/Convergence.antt =====
-- `NonConvergenceGuard` of swaybot/loop_guards.py. Steps are counted from 0.
use swaybot.Prelude.{
  ℕ, ◌+◌, ◌-◌, String, Bool, false, Option, none, some, List, [], ◌∷◌, ltb, ◌==◌, nat_eq, string_eq,
  elem, ◌||◌, Result, ok, err, if◌then◌else◌,
}
use swaybot.LoopGuards.Thresholds.{ThresholdError, validate_thresholds}
use swaybot.LoopGuards.Repeat.{Action}

pub record ConvergenceGuard : Type 0 where
  pub thresholds : List ℕ
  pub count : ℕ
  pub last_step : Option ℕ
  pub step : Option ℕ

pub data Nudge : Type 0 where
  gentle : Nudge
  -- how many calls there were without a final answer
  detailed : ℕ → Nudge

unfoldable pub make_guard : Option (List ℕ) → Result ThresholdError ConvergenceGuard
unfolding validate_thresholds
make_guard given = elim (validate_thresholds (elim given [ none ↦ 10 ∷ 15 ∷ [] | some ts ↦ ts ])) [
  | ok ts ↦ ok (record { thresholds = ts; count = 0; last_step = none; step = none })
  | err e ↦ err e
]

unfoldable pub reset : ConvergenceGuard → ConvergenceGuard
reset g = record g { count = 0; last_step = none; step = none }

unfoldable pub set_step : ℕ → ConvergenceGuard → ConvergenceGuard
set_step s g = record g { step = some s }

-- `_TERMINAL_ACTIONS`
abbrev pub is_terminal : String → Bool
is_terminal name = name == "final_answer" || name == "done"

-- The steps since the last observed action, 1 where they are not known.
unfoldable pub delta : Option ℕ → Option ℕ → ℕ
delta (some l) (some s) = if ltb l s then s - l else 1
delta _ _ = 1

abbrev keep_step : Option ℕ → Option ℕ → Option ℕ
keep_step last none = last
keep_step last (some s) = some s

abbrev is_first : ℕ → List ℕ → Bool
is_first n [] = false
is_first n (t ∷ ts) = n == t

unfoldable pub nudge : List ℕ → ℕ → Option Nudge
nudge thresholds count =
    if elem count thresholds
    then (if is_first count thresholds then some gentle else some (detailed count))
    else none

unfoldable pub observe : Action → ConvergenceGuard → ConvergenceGuard × Option Nudge
unfolding delta nudge
observe a g =
    if is_terminal a.name
    then (record g { count = 0; last_step = g.step }, none)
    else let count = g.count + delta g.last_step g.step in
      (
        record g { count = count; last_step = keep_step g.last_step g.step },
        nudge g.thresholds count,
      )

-- One turn of the host loop: `set_step`, then `observe`.
unfoldable pub turn : ℕ → Action → ConvergenceGuard → ConvergenceGuard × Option Nudge
unfolding set_step observe
turn s a g = observe a (set_step s g)

unfoldable pub turns : List (ℕ × Action) → ConvergenceGuard → ConvergenceGuard
turns [] g = g
turns ((s, a) ∷ ts) g = turns ts (turn s a g).0
