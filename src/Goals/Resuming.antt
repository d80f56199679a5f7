-- ===== src/Goals/Resuming.antt =====
-- `resume` of swaybot/goals/coordinator.py on a goal with nothing to retry, and when a run returns.
use swaybot.Prelude.{
  ℕ, zero, suc, ◌+◌, String, ◌≡◌, refl, ap, sym, ◌∙◌, false, ◌||◌, Option, none, some, List, [],
  ◌∷◌, arith, Result, ok, err, ◌⊎◌, ◌>>=◌, >>=-eq-ok, ok-injective, Result-cases, Bool-cases, inl,
  inr, if◌then◌else◌, ◌==◌, string_eq, length, any, All,
}
use swaybot.Json.{Value, obj}
use swaybot.Storage.Records.{Backend}
use swaybot.Goals.Goal.{Goal, Subtask, GoalError, planner, Defaults, goal_fields}
use swaybot.Goals.Machine.{
  Change, goal_key, touch, moved, save, create, load, transition, load-transition,
}
use swaybot.Goals.Coordinator.{
  Team, execute_subtask, run_from, resume_from, finish, prepare, planned_by, work, run, resume,
  is_failed, is_open,
}

-- A subtask that `resume` does not retry.
abbrev pub IsClosed : Subtask → Type 0
IsClosed s = (s.status == "pending" || s.status == "failed") ≡ false

closed-at : (i : ℕ) (ss : List Subtask) → All IsClosed ss → is_open i ss ≡ false
closed-at i [] a = refl
closed-at zero (s ∷ ss) a = a.0
closed-at (suc i) (s ∷ ss) a = closed-at i ss a.1

closed-failed : (ss : List Subtask) → All IsClosed ss → any is_failed ss ≡ false
closed-failed [] a = refl
closed-failed (s ∷ ss) a = ground (arith, a.0, closed-failed ss a.1)

module _ {S W : Type 0} (backend : Backend S) (defaults : Defaults) (team : Team S W) where
  resume_from-closed :
      (n i : ℕ) (g : Goal) (s : S) (w : W)
      → All IsClosed g.subtasks
      → resume_from backend defaults team n i g s w ≡ ok (g, s, w)
  unfolding resume_from
  resume_from-closed zero i g s w a = refl
  resume_from-closed (suc n) i g s w a =
      rw (closed-at i g.subtasks a) (resume_from-closed n (i + 1) g s w a)

  finish-moved :
      (g : Goal) (s : S) (w : W) (r : Goal × S × W)
      → finish backend defaults team g s w ≡ ok r
      → r.0
        ≡ moved backend defaults
            (some (if any is_failed g.subtasks then "failed" else "done"))
            none
            g
  unfolding finish
  finish-moved g s w r h =
      let state = (if any is_failed g.subtasks then "failed" else "done") in
      let (p, e, h1) = >>=-eq-ok (transition backend defaults g (some state) none s) _ h in
      ap (λ x. x.0) (sym (ok-injective h1))
      ∙ (load-transition backend defaults g p.0 (some state) none s p.1 e).0

  -- A goal with no subtask that is pending or failed is called done by `resume`, and its subtasks are
  -- left as they are: one that was running when the program stopped is not taken up again.
  pub resume-closed :
      (id : String) (g : Goal) (s : S) (w : W) (r : Goal × S × W)
      → load backend defaults id s ≡ ok g
      → All IsClosed g.subtasks
      → resume backend defaults team id s w ≡ ok r
      → (r.0.state ≡ "done") × (r.0.subtasks ≡ g.subtasks)
  unfolding resume moved
  resume-closed id g s w r l a h =
      let quiet = resume_from-closed (length g.subtasks) 0 g s w a in
      let h' : finish backend defaults team g s w ≡ ok r = rw (l, quiet) at h in
      let m = finish-moved g s w r h' in
      (
        ap (λ x. x.state) m ∙ ap (λ b. if b then "failed" else "done") (closed-failed g.subtasks a),
        ap (λ x. x.subtasks) m,
      )

  -- The backend refuses no goal.
  abbrev pub IsAccepting : Type 0
  IsAccepting =
      (id : String) (v : Value) (s : S) → (t : S) × (backend.save (goal_key id) v s ≡ ok t)

  abbrev Returns {ℓ} : {A : Type ℓ} → Result GoalError A → Type ℓ
  Returns m = (a : _) × (m ≡ ok a)

  >>=-Returns {ℓ κ} :
      {A : Type ℓ} {B : Type κ} (m : Result GoalError A) (f : A → Result GoalError B)
      → Returns m
      → ((a : A) → Returns (f a))
      → Returns (m >>= f)
  >>=-Returns m f (a, e) g = let (b, h) = g a in (b, rw (e, h))

  save-Returns : IsAccepting → (g : Goal) (s : S) → Returns (save backend defaults g s)
  unfolding save
  save-Returns accept g s =
      let (t, e) = accept g.id (obj (goal_fields (touch backend defaults g))) s in (t, rw e)

  transition-Returns :
      IsAccepting
      → (g : Goal) (state : Option String) (change : Option Change) (s : S)
      → Returns (transition backend defaults g state change s)
  unfolding transition
  transition-Returns accept g state change s =
      >>=-Returns _ _ (save-Returns accept _ s) (λ t. (_, refl))

  execute_subtask-Returns :
      IsAccepting
      → (g : Goal) (i : ℕ) (s : S) (w : W) → Returns (execute_subtask backend defaults team g i s w)
  unfolding execute_subtask
  execute_subtask-Returns accept g i s w =
      >>=-Returns _ _ (transition-Returns accept g _ _ s)
        (λ p. >>=-Returns _ _ (transition-Returns accept p.0 _ _ _) (λ q. (_, refl)))

  run_from-Returns :
      IsAccepting
      → (n i : ℕ) (g : Goal) (s : S) (w : W) → Returns (run_from backend defaults team n i g s w)
  unfolding run_from
  run_from-Returns accept zero i g s w = (_, refl)
  run_from-Returns accept (suc n) i g s w = elim (Bool-cases (g.state == "cancelled")) [
    | inl c ↦ rw c ((g, s, w), refl)
    | inr c ↦ rw c (
        >>=-Returns _ _ (execute_subtask-Returns accept g i s w)
          (λ p. run_from-Returns accept n (i + 1) p.0 p.1 p.2))
  ]

  -- The planner raises on a goal, and `m` raises what it raised.
  abbrev PlanRaised {ℓ} : {A : Type ℓ} → W → Result GoalError A → Type ℓ
  PlanRaised w m =
      (g : Goal) × (text : String) × ((team.plan g w).0 ≡ err text) × (m ≡ err (planner text))

  >>=-cases :
      {A B : Type 0} (w : W) (m : Result GoalError A) (f : A → Result GoalError B)
      → Returns m
      → ((a : A) → Returns (f a) ⊎ PlanRaised w (f a))
      → Returns (m >>= f) ⊎ PlanRaised w (m >>= f)
  >>=-cases w m f (a, e) g = rw e (g a)

  planned-cases :
      {B : Type 0} (g : Goal) (w : W) (f : List String → Result GoalError B)
      → ((steps : List String) → Returns (f steps))
      → Returns (planned_by backend defaults team (team.plan g w).0 >>= f)
        ⊎ PlanRaised w (planned_by backend defaults team (team.plan g w).0 >>= f)
  planned-cases g w f returns = elim (Result-cases (team.plan g w).0) [
    | inl (steps, e) ↦ inl (rw e (returns steps))
    | inr (text, e) ↦ inr (g, text, e, rw e)
  ]

  prepare-cases :
      IsAccepting
      → (description context : String) (s : S) (w : W)
      → Returns (prepare backend defaults team description context s w)
        ⊎ PlanRaised w (prepare backend defaults team description context s w)
  unfolding prepare create
  prepare-cases accept description context s w = >>=-cases w _ _ (save-Returns accept _ s) (λ t.
      >>=-cases w _ _ (transition-Returns accept _ _ _ t) (λ p.
        planned-cases p.0 w _
          (λ steps. >>=-Returns _ _ (save-Returns accept _ p.1) (λ t. (_, refl)))))

  work-Returns :
      IsAccepting → (g : Goal) (s : S) (w : W) → Returns (work backend defaults team g s w)
  unfolding work finish
  work-Returns accept g s w = >>=-Returns _ _ (transition-Returns accept g _ _ s) (λ q.
      >>=-Returns _ _ (run_from-Returns accept _ 0 q.0 q.1 w)
        (λ r. >>=-Returns _ _ (transition-Returns accept r.0 _ _ r.1) (λ p. (_, refl))))

  -- On a backend that refuses no goal, `run` returns, or the planner has raised and `run` raises the
  -- same: an agent that raises or hangs, a plan without subtasks or a stored goal that was removed or
  -- spoilt meanwhile stops no run.
  pub run-Returns :
      IsAccepting
      → (description context : String) (s : S) (w : W)
      → ((r : Goal × S × W) × (run backend defaults team description context s w ≡ ok r))
        ⊎ ((g : Goal) × (text : String) × ((team.plan g w).0 ≡ err text)
            × (run backend defaults team description context s w ≡ err (planner text)))
  unfolding run
  run-Returns accept description context s w = elim (prepare-cases accept description context s w) [
    | inl returned ↦ inl (>>=-Returns _ _ returned (λ p. work-Returns accept p.0 p.1 p.2))
    | inr (g, text, raised, same) ↦ inr (g, text, raised, rw same)
  ]
