-- ===== src/Prelude/Float.antt =====
-- Python's `float`, as the program uses it: addition, `<`, `<=`, and the literals it compares with. The
-- laws are those of IEEE comparison, which hold for NaN too. `tenths` is an instance of them.
use Prim.Native.Nat.{ℕ, ◌+◌, ◌-◌}
use mathlib.Core.Path.{◌≡◌, refl}
use mathlib.Core.Bool.{Bool, true, false}
use native.Mathlib.Omega.{arith}
use swaybot.Prelude.Tests.{ltb, leb, if◌then◌else◌}

-- The carrier with the operations; `lit n` is the literal n / 10.
pub record Floats (F : Type 0) : Type 0 where
  pub add : F → F → F
  pub sub : F → F → F
  pub lt : F → F → Bool
  pub le : F → F → Bool
  pub lit : ℕ → F
  pub lt_asymm : (a b : F) → lt a b ≡ true → lt b a ≡ false
  pub lt-le : (a b : F) → lt a b ≡ true → le b a ≡ false
  pub lt-lit : (m n : ℕ) → lt (lit m) (lit n) ≡ ltb m n

module _ {F : Type 0} (fl : Floats F) where
  -- `min(a, b)` and `max(a, b)`: the second only if it is strictly better.
  abbrev pub fmin : F → F → F
  fmin a b = if fl.lt b a then b else a

  abbrev pub fmax : F → F → F
  fmax a b = if fl.lt a b then b else a

-- Tenths as numbers from 0 on.
pub tenths_lt_asymm : (a b : ℕ) → ltb a b ≡ true → ltb b a ≡ false
tenths_lt_asymm a b h = ground arith

pub tenths_lt-le : (a b : ℕ) → ltb a b ≡ true → leb b a ≡ false
tenths_lt-le a b h = ground arith

abbrev pub tenths : Floats ℕ
tenths = record {
  add = ◌+◌;
  sub = ◌-◌;
  lt = ltb;
  le = leb;
  lit = λ n. n;
  lt_asymm = tenths_lt_asymm;
  lt-le = tenths_lt-le;
  lt-lit = λ m n. refl;
}
