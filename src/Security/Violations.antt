-- ===== src/Security/Violations.antt =====
-- `SecurityManager` and the in-memory `ViolationStore` of swaybot/violations.py.
use swaybot.Prelude.{
  ℕ, ◌+◌, String, ◌≡◌, Bool, List, leb, ◌==◌, string_eq, Result, ok, err, arith, if◌then◌else◌,
}
use swaybot.Prelude.Dict.{insert, erase, get_or, lookup-insert, lookup-erase}

-- The `ViolationStore` protocol, with what its callers rely on.
pub record ViolationStore (S : Type 0) : Type 0 where
  pub get : S → String → ℕ
  pub set : S → String → ℕ → S
  pub reset : S → String → S
  pub get-set : (s : S) (i j : String) (n : ℕ) → get (set s i n) j ≡ (if i == j then n else get s j)
  pub get-reset : (s : S) (i j : String) → get (reset s i) j ≡ (if i == j then 0 else get s j)

-- `InMemoryViolationStore`
abbrev pub memory_get : List (String × ℕ) → String → ℕ
memory_get m i = get_or i m 0

pub memory_get-set :
    (m : List (String × ℕ)) (i j : String) (n : ℕ)
    → memory_get (insert i n m) j ≡ (if i == j then n else memory_get m j)
memory_get-set m i j n = ground (arith, lookup-insert i j n m)

pub memory_get-reset :
    (m : List (String × ℕ)) (i j : String)
    → memory_get (erase i m) j ≡ (if i == j then 0 else memory_get m j)
memory_get-reset m i j = ground (arith, lookup-erase i j m)

abbrev pub in_memory : ViolationStore (List (String × ℕ))
in_memory = record {
  get = memory_get;
  set = λ m i n. insert i n m;
  reset = λ m i. erase i m;
  get-set = memory_get-set;
  get-reset = memory_get-reset;
}

pub record SecurityManager (S : Type 0) : Type 0 where
  pub threshold : ℕ
  pub store : S

pub record Status : Type 0 where
  pub violations : ℕ
  pub threshold : ℕ
  pub escalated : Bool

module _ {S : Type 0} (vs : ViolationStore S) where
  unfoldable pub record_violation : String → SecurityManager S → SecurityManager S
  record_violation i m = record m { store = vs.set m.store i (vs.get m.store i + 1) }

  -- `check_path` and `check_command`: the guard's answer, recorded if it raises.
  unfoldable pub check :
      {E A : Type 0} → String → Result E A → SecurityManager S → Result E A × SecurityManager S
  check i (ok a) m = (ok a, m)
  check i (err e) m = (err e, record_violation i m)

  unfoldable pub is_escalated : String → SecurityManager S → Bool
  is_escalated i m = leb m.threshold (vs.get m.store i)

  unfoldable pub reset_session : String → SecurityManager S → SecurityManager S
  reset_session i m = record m { store = vs.reset m.store i }

  unfoldable pub status : String → SecurityManager S → Status
  status i m =
      let count = vs.get m.store i in
      record { violations = count; threshold = m.threshold; escalated = leb m.threshold count }
