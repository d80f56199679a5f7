-- ===== src/Memory/Sameness.antt =====
-- The equality of steps that `@dataclass` generates, with numbers as floats.
use native.Mathlib.Decide.{ℕ_discrete}
use swaybot.Prelude.{ℕ, Eq, eq_of, string_discrete}
use swaybot.Memory.Steps.{Step}

pub step_discrete : Discrete (Step ℕ)
step_discrete = hlevel (ℕ_discrete, string_discrete)

instance abbrev pub step_eq : Eq (Step ℕ)
step_eq = eq_of step_discrete
