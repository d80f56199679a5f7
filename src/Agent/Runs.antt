-- ===== src/Agent/Runs.antt =====
-- How a run of swaybot/agent.py ends.
use swaybot.Prelude.{
  if-true, if-false, ℕ, zero, suc, ◌+◌, ◌≤◌, ◌<◌, ◌≡◌, refl, ap, ◌∙◌, String, Bool, true, false,
  Option, some, List, [], ◌∷◌, ◌++◌, arith, leb→le, sym, subst, ◌*◌, length, length-append, max,
  leb, string_eq, Eq, ◌⊎◌, Bool-cases, inl, inr, if◌then◌else◌,
}
use swaybot.Prelude.Float.{Floats}
use swaybot.LoopGuards.Repeat.{Action}
use swaybot.Memory.Steps.{Step}
use swaybot.Memory.Store.{Store}
use swaybot.Agent.Environment.{Environment, Entry, tool, max_steps, start, is_final, observe}
use swaybot.Agent.Loop.{Agent, Host, Run, iterate, loop, run_body}

-- The action of the last entry.
abbrev pub last_is_final : List Entry → Bool
last_is_final [] = false
last_is_final (e ∷ []) = is_final e.action
last_is_final (e ∷ f ∷ es) = last_is_final (f ∷ es)

last-snoc : (es : List Entry) (e : Entry) → last_is_final (es ++ e ∷ []) ≡ is_final e.action
last-snoc [] e = refl
last-snoc (f ∷ []) e = refl
last-snoc (f ∷ g ∷ es) e = last-snoc (g ∷ es) e

-- A history numbered from `n + 1` on.
abbrev pub IsNumbered : ℕ → List Entry → Type 0
IsNumbered n [] = Unit
IsNumbered n (e ∷ es) = (e.step ≡ n + 1) × IsNumbered (n + 1) es

IsNumbered-snoc :
    (n : ℕ) (es : List Entry) (e : Entry)
    → IsNumbered n es
    → e.step ≡ n + length es + 1
    → IsNumbered n (es ++ e ∷ [])
IsNumbered-snoc n [] e h k = (omega (arith, k), tt)
IsNumbered-snoc n (f ∷ es) e h k = (h.0, IsNumbered-snoc (n + 1) es e h.1 (omega (arith, k)))

-- A run under way: every step is in the history, numbered, and it has stopped exactly for the reason
-- that it states.
pub record IsSound (limit : ℕ) (env : Environment) : Type 0 where
  pub limited : env.max_steps ≡ limit
  pub counted : length env.history ≡ env.step
  pub numbered : IsNumbered 0 env.history
  pub running : env.done ≡ false → (env.step ≡ 0) ⊎ (env.step < limit)
  pub within : env.step ≤ max 1 limit
  pub reason :
      env.done ≡ true
      → env.stop_reason ≡ (if last_is_final env.history then some tool else some max_steps)
  pub used_up : env.done ≡ true → last_is_final env.history ≡ false → limit ≤ env.step
  pub begun : env.done ≡ true → 1 ≤ env.step

-- The entry that `observe` adds.
abbrev entry : Action → String → Environment → Entry
entry a result env = record { step = env.step + 1; action = a; result = result }

-- A run that has ended: its steps are in the history, numbered, within the limit (or 1 for the limit 0),
-- and it has stopped for the reason that it states.
pub record IsFinished (limit : ℕ) (env : Environment) : Type 0 where
  pub done : env.done ≡ true
  pub limited : env.max_steps ≡ limit
  pub counted : length env.history ≡ env.step
  pub numbered : IsNumbered 0 env.history
  pub begun : 1 ≤ env.step
  pub within : env.step ≤ max 1 limit
  pub reason : env.stop_reason ≡ (if last_is_final env.history then some tool else some max_steps)
  pub used_up : (last_is_final env.history ≡ true) ⊎ (limit ≤ env.step)

IsFinished-run :
    (limit : ℕ) (env : Environment) → env.done ≡ true → IsSound limit env → IsFinished limit env
IsFinished-run limit env d s = record {
  done = d;
  limited = s.limited;
  counted = s.counted;
  numbered = s.numbered;
  begun = s.begun d;
  within = s.within;
  reason = s.reason d;
  used_up = elim (Bool-cases (last_is_final env.history)) [
    | inl e ↦ inl e
    | inr e ↦ inr (s.used_up d e)
  ];
}

observe-IsSound :
    (limit : ℕ) (a : Action) (result : String) (env : Environment)
    → env.done ≡ false
    → IsSound limit env
    → IsSound limit (observe a result env)
unfolding observe
observe-IsSound limit a result env h s =
    let room : env.step + 1 ≤ max 1 limit = (let now = s.running h in ground (arith, now)) in
    let count : length (env.history ++ entry a result env ∷ []) ≡ env.step + 1 =
      omega (arith, s.counted, length-append env.history (entry a result env ∷ [])) in
    let order : IsNumbered 0 (env.history ++ entry a result env ∷ []) =
      IsNumbered-snoc 0 env.history (entry a result env) s.numbered (omega (arith, s.counted)) in
    let last = last-snoc env.history (entry a result env) in
    let cap = s.limited in
    elim (Bool-cases (is_final a)) [
      | inl e ↦ rw e (record {
        limited = cap;
        counted = count;
        numbered = order;
        running = λ q. ground arith;
        within = room;
        reason = λ q. rw (last, e);
        used_up = λ q g. ground (arith, last, e, g);
        begun = λ q. omega arith;
      })
      | inr e ↦ elim (Bool-cases (leb env.max_steps (env.step + 1))) [
        | inl f ↦
            rw (e, f)
              (record {
                limited = cap;
                counted = count;
                numbered = order;
                running = λ q. ground arith;
                within = room;
                reason = λ q. rw (last, e);
                used_up = λ q g. ground (arith, cap, leb→le env.max_steps (env.step + 1) f);
                begun = λ q. omega arith;
              })
        | inr f ↦
            rw (e, f)
              (record {
                limited = cap;
                counted = count;
                numbered = order;
                running = λ q. inr (ground (arith, cap));
                within = room;
                reason = λ q. ground arith;
                used_up = λ q g. ground arith;
                begun = λ q. omega arith;
              })
      ]
    ]

observe-step :
    (a : Action) (result : String) (env : Environment) → (observe a result env).step ≡ env.step + 1
unfolding observe
observe-step a result env = ground arith

start-IsSound : (name : String) (limit : ℕ) → IsSound limit (start name limit)
start-IsSound name limit = record {
  limited = refl;
  counted = refl;
  numbered = tt;
  running = λ h. inl refl;
  within = omega arith;
  reason = λ h. ground arith;
  used_up = λ h. ground arith;
  begun = λ h. ground arith;
}

module _ {F W : Type 0} ⦃q : Eq (Step F)⦄ (fl : Floats F) (host : Host) (agent : Agent F W) where
  -- What holds at the start of a run and after each of its steps holds at its end.
  pub loop-induction :
      (P : Run F W → Type 0)
      → ((r : Run F W) → r.env.done ≡ false → P r → P (iterate fl host agent r))
      → (fuel : ℕ) (r : Run F W) → P r
      → P (loop fl host agent fuel r)
  unfolding loop
  loop-induction P next zero r p = p
  loop-induction P next (suc fuel) r p =
      let rest = loop fl host agent fuel (iterate fl host agent r) in
      elim (Bool-cases r.env.done) [
        | inl d ↦ subst P (sym (if-true r.env.done r rest d)) p
        | inr d ↦
            subst P (sym (if-false r.env.done r rest d))
              (loop-induction P next fuel (iterate fl host agent r) (next r d p))
      ]

  iterate-IsSound :
      (limit : ℕ) (r : Run F W)
      → r.env.done ≡ false
      → IsSound limit r.env
      → IsSound limit (iterate fl host agent r).env
  unfolding iterate
  iterate-IsSound limit r d s = observe-IsSound limit _ _ r.env d s

  iterate-step : (r : Run F W) → (iterate fl host agent r).env.step ≡ r.env.step + 1
  unfolding iterate
  iterate-step r = observe-step _ _ r.env

  -- Fuel for each step that the limit leaves, and one for a limit of 0, is enough.
  loop-done :
      (limit fuel : ℕ) (r : Run F W)
      → IsSound limit r.env
      → limit < r.env.step + fuel
      → (loop fl host agent fuel r).env.done ≡ true
  unfolding loop
  loop-done limit zero r s h = elim (Bool-cases r.env.done) [
    | inl d ↦ d
    | inr d ↦ let now = s.running d in ground (arith, now)
  ]
  loop-done limit (suc fuel) r s h =
      let rest = loop fl host agent fuel (iterate fl host agent r) in
      elim (Bool-cases r.env.done) [
        | inl d ↦ ap (λ x. x.env.done) (if-true r.env.done r rest d) ∙ d
        | inr d ↦
            ap (λ x. x.env.done) (if-false r.env.done r rest d)
            ∙ loop-done limit fuel (iterate fl host agent r) (iterate-IsSound limit r d s)
                (omega (arith, h, iterate-step r))
      ]

  -- A run ends, after at least one step and within the limit on its steps (a limit of 0 lets one step
  -- through): its history has an entry for each step, numbered from 1, and `stop_reason` is `tool` where
  -- the last action is one that ends a run, and otherwise `max_steps`, where the limit is used up.
  pub run_body-IsFinished :
      (name : String) (limit : ℕ) (w : W) (memory : Option (Store F))
      → IsFinished limit (run_body fl host agent name limit w memory).env
  unfolding run_body
  run_body-IsFinished name limit w memory =
      let zeroth = start-IsSound name limit in
      IsFinished-run limit _ (loop-done limit (limit + 1) _ zeroth (omega arith))
        (loop-induction (λ r. IsSound limit r.env) (iterate-IsSound limit) (limit + 1) _ zeroth)

  iterate-events : (r : Run F W) → length (iterate fl host agent r).events ≡ length r.events + 2
  unfolding iterate
  iterate-events r = length-append r.events _

  -- The events of a run: one at its begin and one at its end, and two for each step.
  pub length-events-run_body :
      (name : String) (limit : ℕ) (w : W) (memory : Option (Store F))
      → length (run_body fl host agent name limit w memory).events
        ≡ 2 * (run_body fl host agent name limit w memory).env.step + 2
  unfolding run_body
  length-events-run_body name limit w memory =
      length-append _ _
      ∙ ap (λ n. n + 1)
          (loop-induction (λ r. length r.events ≡ 2 * r.env.step + 1)
            (λ r d h. omega (arith, h, iterate-events r, iterate-step r)) (limit + 1) _ refl)
      ∙ omega arith
