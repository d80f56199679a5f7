-- ===== src/LoopGuards/Progress.antt =====
-- What `NonConvergenceGuard` (swaybot/loop_guards.py) counts, and what it misses.
use swaybot.Prelude.{
  ℕ, ◌+◌, ◌-◌, ◌<◌, ◌≡◌, refl, true, false, none, some, List, [], ◌∷◌, arith, nat_eq,
}
use swaybot.LoopGuards.Repeat.{Action}
use swaybot.LoopGuards.Convergence.{ConvergenceGuard, is_terminal, reset, observe, turn, turns}

-- Turns that call tools only, each at a later step than the one before.
abbrev pub IsRising : ℕ → List (ℕ × Action) → Type 0
IsRising l [] = Unit
IsRising l ((s, a) ∷ ts) = (l < s) × (is_terminal a.name ≡ false) × IsRising s ts

abbrev pub last_of : ℕ → List (ℕ × Action) → ℕ
last_of l [] = l
last_of l ((s, a) ∷ ts) = last_of s ts

turn_later :
    (l s : ℕ) (a : Action) (g : ConvergenceGuard)
    → g.last_step ≡ some l
    → l < s
    → is_terminal a.name ≡ false
    → ((turn s a g).0.count + l ≡ g.count + s) × ((turn s a g).0.last_step ≡ some s)
unfolding turn
turn_later l s a g e h n = ground arith

turns_from :
    (ts : List (ℕ × Action)) (l : ℕ) (g : ConvergenceGuard)
    → g.last_step ≡ some l
    → IsRising l ts
    → (turns ts g).count + l ≡ g.count + last_of l ts
unfolding turns
turns_from [] l g e r = refl
turns_from ((s, a) ∷ ts) l g e (h, n, r) =
    let (c, k) = turn_later l s a g e h n in omega (arith, turns_from ts s (turn s a g).0 k r)

-- From a reset, turns at rising steps that call tools only are counted by the steps that went by,
-- also those at which `observe` was not reached: the count is 1 more than the way from the first
-- observed step to the last.
pub count-turns :
    (g : ConvergenceGuard) (s : ℕ) (a : Action) (ts : List (ℕ × Action))
    → is_terminal a.name ≡ false
    → IsRising s ts
    → (turns ((s, a) ∷ ts) (reset g)).count + s ≡ last_of s ts + 1
unfolding turns turn reset
count-turns g s a ts n r =
    let started : (turn s a (reset g)).0.last_step ≡ some s = ground arith in
    let one : (turn s a (reset g)).0.count ≡ 1 = ground arith in
    omega (arith, one, turns_from ts s (turn s a (reset g)).0 started r)

-- A terminal action ends the count and is never answered by a nudge.
pub observe-terminal :
    (a : Action) (g : ConvergenceGuard)
    → is_terminal a.name ≡ true
    → ((observe a g).0.count ≡ 0) × ((observe a g).0.last_step ≡ g.step) × ((observe a g).1 ≡ none)
unfolding observe
observe-terminal a g h = ground arith

-- A count that steps over the threshold 10 of the default guard, and stays below 15, draws no nudge.
pub turn-skips_threshold :
    (l s : ℕ) (a : Action) (g : ConvergenceGuard)
    → g.thresholds ≡ 10 ∷ 15 ∷ []
    → g.last_step ≡ some l
    → l < s
    → g.count < 10
    → 10 < g.count + (s - l)
    → g.count + (s - l) < 15
    → (turn s a g).1 ≡ none
unfolding turn
turn-skips_threshold l s a g t e h lo over hi = ground arith
