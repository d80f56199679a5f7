-- ===== src/Security/Escalation.antt =====
-- When `SecurityManager` (swaybot/violations.py) reports a session as escalated.
use swaybot.Prelude.{
  ℕ, ◌+◌, String, ◌≡◌, refl, List, [], ◌∷◌, leb, ◌==◌, string_eq, eq_iff, arith, ap, ◌∙◌, Result,
  ok, err, if◌then◌else◌,
}
use swaybot.Security.Violations.{
  ViolationStore, SecurityManager, record_violation, check, reset_session, is_escalated, status,
}

-- What a session does: a check with the guard's answer, or a reset.
pub data Event (E A : Type 0) : Type 0 where
  checked : String → Result E A → Event E A
  cleared : String → Event E A

recorded :
    {S : Type 0} (vs : ViolationStore S) (i j : String) (m : SecurityManager S)
    → vs.get (record_violation vs j m).store i
      ≡ (if j == i then vs.get m.store i + 1 else vs.get m.store i)
unfolding record_violation
recorded vs i j m = ground (arith, eq_iff j i, vs.get-set m.store j i (vs.get m.store j + 1))

module _ {E A S : Type 0} (vs : ViolationStore S) where
  unfoldable pub handle : Event E A → SecurityManager S → SecurityManager S
  handle (checked i r) m = (check vs i r m).1
  handle (cleared i) m = reset_session vs i m

  unfoldable pub handle_all : List (Event E A) → SecurityManager S → SecurityManager S
  handle_all [] m = m
  handle_all (e ∷ es) m = handle_all es (handle e m)

  -- The violations of a session, counted on the events from `n` on.
  abbrev pub violations : String → ℕ → List (Event E A) → ℕ
  violations i n [] = n
  violations i n (checked j (ok a) ∷ es) = violations i n es
  violations i n (checked j (err e) ∷ es) = violations i (if j == i then n + 1 else n) es
  violations i n (cleared j ∷ es) = violations i (if j == i then 0 else n) es

  handle_all-get :
      (i : String) (es : List (Event E A)) (m : SecurityManager S)
      → (vs.get (handle_all es m).store i ≡ violations i (vs.get m.store i) es)
        × ((handle_all es m).threshold ≡ m.threshold)
  unfolding handle_all handle check reset_session
  handle_all-get i [] m = (refl, refl)
  handle_all-get i (checked j (ok a) ∷ es) m = handle_all-get i es m
  handle_all-get i (checked j (err e) ∷ es) m =
      let (p, q) = handle_all-get i es (record_violation vs j m) in
      (p ∙ ap (λ n. violations i n es) (recorded vs i j m), q ∙ (unfold record_violation in refl))
  handle_all-get i (cleared j ∷ es) m =
      let (p, q) = handle_all-get i es (reset_session vs j m) in
      (p ∙ ap (λ n. violations i n es) (vs.get-reset m.store j i), q)

  -- After any events, a session is escalated exactly when its own failed checks since its own last
  -- reset, with the violations it began with, have reached the threshold, and `status` reports that
  -- number and that verdict.
  pub is_escalated-handle_all :
      (i : String) (es : List (Event E A)) (m : SecurityManager S)
      → (is_escalated vs i (handle_all es m) ≡ leb m.threshold (violations i (vs.get m.store i) es))
        × ((status vs i (handle_all es m)).violations ≡ violations i (vs.get m.store i) es)
        × ((status vs i (handle_all es m)).escalated ≡ is_escalated vs i (handle_all es m))
  unfolding is_escalated status
  is_escalated-handle_all i es m = let (p, q) = handle_all-get i es m in (rw (p, q), p, refl)
