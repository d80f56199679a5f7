-- ===== src/Tools/Groups.antt =====
-- A group of calls in the thread pool returns what the calls return one by one.
use swaybot.Prelude.{
  ℕ, zero, suc, ◌≡◌, refl, sym, ap, ◌∙◌, subst, Bool, true, false, List, [], ◌∷◌, ◌++◌, map, Result,
  ok, err, ◌>>=◌, >>=-eq-ok, ok-injective, ◌≢◌, if◌then◌else◌, All,
}
use swaybot.Json.{Value}
use swaybot.LoopGuards.Repeat.{Action}
use swaybot.Tools.Schema.{Tool, ToolError}
use swaybot.Tools.Registry.{ToolRegistry, execute}
use swaybot.Tools.Batch.{
  Slot, waiting, finished, collect, is_parallel, after, single, dispatch, tool_of, finish_at,
  finish_each, settle, one_by_one, run_group,
}

pub err-ok : {E A : Type 0} {e : E} {a : A} → ◌≢◌ {A = Result E A} (err e) (ok a)
err-ok h = cc h

if_same : {A : Type 0} (b : Bool) (x : A) → (if b then x else x) ≡ x
if_same true x = refl
if_same false x = refl

pub pair_eq : {A B : Type 0} (p : A × B) (a : A) (b : B) → p.0 ≡ a → p.1 ≡ b → p ≡ (a, b)
pair_eq p a b first second = ap (λ x. (x, p.1)) first ∙ ap (λ y. (a, y)) second

module _ {W : Type 0} (registry : ToolRegistry W) where
  -- A call in a group: of a tool that may run with others.
  abbrev pub Parallel : Action → Type 0
  Parallel action = (t : Tool W) × (tool_of registry action ≡ ok t) × (is_parallel t ≡ true)

  abbrev pub answer_at : W → Action → Result ToolError Value
  answer_at w action = (execute action registry w).0

  -- The slots of a group whose calls leave the world alone.
  abbrev Fits : W → List Slot → List Action → Type 0
  Fits w [] [] = Unit
  Fits w (waiting a ∷ slots) (b ∷ rest) = (a ≡ b) × Fits w slots rest
  Fits w (finished answer ∷ slots) (b ∷ rest) = (answer ≡ answer_at w b) × Fits w slots rest
  Fits w _ _ = ⊥

  map-Fits : (w : W) (group : List Action) → Fits w (map waiting group) group
  map-Fits w [] = tt
  map-Fits w (a ∷ group) = (refl, map-Fits w group)

  -- The calls that leave the world as it is.
  abbrev pub Quiet : W → Action → Type 0
  Quiet w action = (execute action registry w).1 ≡ w

  finish_at-Fits :
      (i : ℕ) (slots : List Slot) (group : List Action) (w : W)
      → All (Quiet w) group
      → Fits w slots group
      → Fits w (finish_at registry i slots w).0 group × ((finish_at registry i slots w).1 ≡ w)
  unfolding finish_at
  finish_at-Fits i [] [] w quiet fits = (tt, refl)
  finish_at-Fits i [] (b ∷ group) w quiet fits = absurd fits
  finish_at-Fits zero (waiting a ∷ slots) [] w quiet fits = absurd fits
  finish_at-Fits zero (finished r ∷ slots) [] w quiet fits = absurd fits
  finish_at-Fits (suc i) (waiting a ∷ slots) [] w quiet fits = absurd fits
  finish_at-Fits (suc i) (finished r ∷ slots) [] w quiet fits = absurd fits
  finish_at-Fits zero (waiting a ∷ slots) (b ∷ group) w (calm, quiet) (same, fits) =
      ((ap (answer_at w) same, fits), ap (λ c. (execute c registry w).1) same ∙ calm)
  finish_at-Fits zero (finished r ∷ slots) (b ∷ group) w quiet fits = (fits, refl)
  finish_at-Fits (suc i) (waiting a ∷ slots) (b ∷ group) w (calm, quiet) (same, fits) =
      let (later, still) = finish_at-Fits i slots group w quiet fits in ((same, later), still)
  finish_at-Fits (suc i) (finished r ∷ slots) (b ∷ group) w (calm, quiet) (same, fits) =
      let (later, still) = finish_at-Fits i slots group w quiet fits in ((same, later), still)

  finish_each-Fits :
      (order : List ℕ) (slots : List Slot) (group : List Action) (w : W)
      → All (Quiet w) group
      → Fits w slots group
      → Fits w (finish_each registry order slots w).0 group
        × ((finish_each registry order slots w).1 ≡ w)
  unfolding finish_each
  finish_each-Fits [] slots group w quiet fits = (fits, refl)
  finish_each-Fits (i ∷ order) slots group w quiet fits =
      let (later, still) = finish_at-Fits i slots group w quiet fits in
      let others : List Slot = (finish_at registry i slots w).0 in
      subst
        (λ v.
          Fits w (finish_each registry order others v).0 group
          × ((finish_each registry order others v).1 ≡ w))
        (sym still) (finish_each-Fits order others group w quiet later)

  settle-answers :
      (slots : List Slot) (group : List Action) (w : W)
      → All (Quiet w) group
      → Fits w slots group
      → settle registry slots w ≡ (map (answer_at w) group, w)
  unfolding settle
  settle-answers [] [] w quiet fits = refl
  settle-answers [] (b ∷ group) w quiet fits = absurd fits
  settle-answers (waiting a ∷ slots) [] w quiet fits = absurd fits
  settle-answers (finished r ∷ slots) [] w quiet fits = absurd fits
  settle-answers (waiting a ∷ slots) (b ∷ group) w (calm, quiet) (same, fits) =
      let still : (execute a registry w).1 ≡ w = ap (λ c. (execute c registry w).1) same ∙ calm in
      ap (λ v. (answer_at w a ∷ (settle registry slots v).0, (settle registry slots v).1)) still
      ∙ ap (λ p. (answer_at w a ∷ p.0, p.1)) (settle-answers slots group w quiet fits)
      ∙ ap (λ c. (answer_at w c ∷ map (answer_at w) group, w)) same
  settle-answers (finished r ∷ slots) (b ∷ group) w (calm, quiet) (same, fits) =
      ap (λ p. (r ∷ p.0, p.1)) (settle-answers slots group w quiet fits)
      ∙ ap (λ x. (x ∷ map (answer_at w) group, w)) same

  -- What the calls of a group return in any order, where none of them changes the world.
  pub run_group-Quiet :
      (threads : List Action → List ℕ) (group : List Action) (w : W)
      → All (Quiet w) group
      → run_group registry threads group w ≡ (collect (map (answer_at w) group), w)
  unfolding run_group
  run_group-Quiet threads group w quiet =
      let (fits, still) =
        finish_each-Fits (threads group) (map waiting group) group w quiet (map-Fits w group) in
      let slots : List Slot = (finish_each registry (threads group) (map waiting group) w).0 in
      ap (λ v. (collect (settle registry slots v).0, (settle registry slots v).1)) still
      ∙ ap (λ p. (collect p.0, p.1)) (settle-answers slots group w quiet fits)

  -- The calls that follow those that returned.
  pub after-ok :
      (first : Result ToolError (List Value) × W) (next : W → Result ToolError (List Value) × W)
      (vs : List Value) (w : W)
      → after first next ≡ (ok vs, w)
      → (us : List Value) × (w1 : W) × (more : List Value) × (first ≡ (ok us, w1))
        × (next w1 ≡ (ok more, w))
        × (us ++ more ≡ vs)
  after-ok (err e, w1) next vs w h = absurd (err-ok (ap (λ p. p.0) h))
  after-ok (ok us, w1) next vs w h =
      let (more, e, q) = >>=-eq-ok (next w1).0 (λ more. ok (us ++ more)) (ap (λ p. p.0) h) in
      (us, w1, more, refl, pair_eq (next w1) (ok more) w e (ap (λ p. p.1) h), ok-injective q)

  pub one_by_one-step :
      (a : Action) (rest : List Action) (t : Tool W) (v : Value) (more : List Value) (w w1 w2 : W)
      → tool_of registry a ≡ ok t
      → execute a registry w ≡ (ok v, w1)
      → one_by_one registry rest w1 ≡ (ok more, w2)
      → one_by_one registry (a ∷ rest) w ≡ (ok (v ∷ more), w2)
  unfolding one_by_one
  one_by_one-step a rest t v more w w1 w2 is_t ran went =
      let next : Result ToolError (List Value) × W =
        after (single (execute a registry w)) (one_by_one registry rest) in
      ap (λ r. dispatch r w next next) is_t
      ∙ if_same (is_parallel t) next
      ∙ ap (λ p. after (single p) (one_by_one registry rest)) ran
      ∙ ap (λ p. (p.0 >>= λ vs. ok (v ∷ vs), p.1)) went

  pub one_by_one-nil : (w : W) → one_by_one registry [] w ≡ (ok [], w)
  unfolding one_by_one
  one_by_one-nil w = refl

  pub one_by_one-group :
      (group rest : List Action) (w w' : W) (us more : List Value)
      → All Parallel group
      → All (Quiet w) group
      → collect (map (answer_at w) group) ≡ ok us
      → one_by_one registry rest w ≡ (ok more, w')
      → one_by_one registry (group ++ rest) w ≡ (ok (us ++ more), w')
  unfolding collect
  one_by_one-group [] rest w w' us more parallel quiet all_ok went =
      went ∙ ap (λ vs. (ok (vs ++ more), w')) (ok-injective all_ok)
  one_by_one-group (a ∷ group) rest w w' us more ((t, is_t, p), parallel) (calm, quiet) all_ok
        went =
      let (v, ran, others) =
        >>=-eq-ok (answer_at w a) (λ v. collect (map (answer_at w) group) >>= λ vs. ok (v ∷ vs))
          all_ok in
      let (vs, group_ok, q) =
        >>=-eq-ok (collect (map (answer_at w) group)) (λ vs. ok (v ∷ vs)) others in
      one_by_one-step a (group ++ rest) t v (vs ++ more) w w w' is_t
        (pair_eq (execute a registry w) (ok v) w ran calm)
        (one_by_one-group group rest w w' vs more parallel quiet group_ok went)
      ∙ ap (λ us. (ok (us ++ more), w')) (ok-injective q)

  -- Calls of tools that may run with others leave the world as it is.
  abbrev pub Harmless : Type 0
  Harmless =
      (a : Action) (t : Tool W) (w : W)
      → tool_of registry a ≡ ok t
      → is_parallel t ≡ true
      → (execute a registry w).1 ≡ w

  pub all-Quiet :
      Harmless → (w : W) (group : List Action) → All Parallel group → All (Quiet w) group
  all-Quiet harmless w [] parallel = tt
  all-Quiet harmless w (a ∷ group) ((t, is_t, p), parallel) =
      (harmless a t w is_t p, all-Quiet harmless w group parallel)
