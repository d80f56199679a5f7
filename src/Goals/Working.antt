-- ===== src/Goals/Working.antt =====
-- How `_run` and `resume` of swaybot/goals/coordinator.py leave a goal.
use swaybot.Prelude.{
  ℕ, zero, suc, ◌+◌, String, ◌≡◌, refl, ap, sym, subst, ◌∙◌, Bool, true, false, ◌||◌, Option, none,
  some, List, [], ◌∷◌, arith, Result, ok, err, ◌>>=◌, >>=-eq-ok, ok-injective, Option-cases, inl,
  inr, if◌then◌else◌, ◌==◌, string_eq, length, any, take, All,
}
use swaybot.Prelude.Text.{starts_with}
use swaybot.Storage.Records.{Backend}
use swaybot.Goals.Goal.{Goal, Subtask, GoalError, Defaults}
use swaybot.Goals.Machine.{mark, moved, create, save, load, transition, load-transition}
use swaybot.Goals.Coordinator.{
  Attempt, verdict, Team, subtask_job, told, record_verdict, work_on, work_in, execute_subtask,
  run_from, finish, prepare, work, run, answered, planned_by, is_failed, id_at, find_subtask,
}

abbrev is_settled : String → Bool
is_settled status = status == "done" || status == "failed"

-- A subtask that was worked off.
abbrev pub IsSettled : Subtask → Type 0
IsSettled s = is_settled s.status ≡ true

length-mark :
    (i : ℕ) (status : String) (result : Option String) (ss : List Subtask)
    → length (mark i status result ss) ≡ length ss
unfolding mark
length-mark zero status result [] = refl
length-mark (suc i) status result [] = refl
length-mark zero status result (s ∷ ss) = refl
length-mark (suc i) status result (s ∷ ss) = ap suc (length-mark i status result ss)

-- Marking a subtask leaves those before it.
take-mark :
    (i : ℕ) (status : String) (result : Option String) (ss : List Subtask)
    → take i (mark i status result ss) ≡ take i ss
unfolding mark
take-mark zero status result ss = refl
take-mark (suc i) status result [] = refl
take-mark (suc i) status result (s ∷ ss) = ap (λ x. s ∷ x) (take-mark i status result ss)

IsSettled-mark :
    (i : ℕ) (status : String) (result : Option String) (ss : List Subtask)
    → is_settled status ≡ true
    → All IsSettled (take i ss)
    → All IsSettled (take (suc i) (mark i status result ss))
unfolding mark
IsSettled-mark zero status result [] h a = tt
IsSettled-mark (suc i) status result [] h a = tt
IsSettled-mark zero status none (s ∷ ss) h a = (h, tt)
IsSettled-mark zero status (some r) (s ∷ ss) h a = (h, tt)
IsSettled-mark (suc i) status result (s ∷ ss) h a = (a.0, IsSettled-mark i status result ss h a.1)

abbrev pub descriptions : List Subtask → List String
descriptions [] = []
descriptions (s ∷ ss) = s.description ∷ descriptions ss

descriptions-mark :
    (i : ℕ) (status : String) (result : Option String) (ss : List Subtask)
    → descriptions (mark i status result ss) ≡ descriptions ss
unfolding mark
descriptions-mark zero status result [] = refl
descriptions-mark (suc i) status result [] = refl
descriptions-mark zero status none (s ∷ ss) = refl
descriptions-mark zero status (some r) (s ∷ ss) = refl
descriptions-mark (suc i) status result (s ∷ ss) =
    ap (λ ts. s.description ∷ ts) (descriptions-mark i status result ss)

take-all {ℓ} : {A : Type ℓ} (xs : List A) → take (length xs) xs ≡ xs
take-all [] = refl
take-all (x ∷ xs) = ap (λ ys. x ∷ ys) (take-all xs)

settled_either : (b : Bool) → is_settled (if b then "failed" else "done") ≡ true
settled_either true = refl
settled_either false = refl

abbrev answer_settled : Option (String × String) → Bool
answer_settled none = true
answer_settled (some p) = is_settled p.0

verdict-settled : (a : Attempt) (p : String × String) → verdict a ≡ some p → is_settled p.0 ≡ true
unfolding verdict
verdict-settled (Attempt.finished recorded final) p h =
    sym (ap answer_settled h) ∙ settled_either (recorded || starts_with final "Error:")
verdict-settled (Attempt.raised text) p h = sym (ap answer_settled h)
verdict-settled Attempt.stuck p h = ground (arith, h)

module _ {S W : Type 0} (backend : Backend S) (defaults : Defaults) (team : Team S W) where
  abbrev IsAnswer : Option (String × String) × S × W → Type 0
  IsAnswer x = is_settled (answered backend defaults team x.0).0 ≡ true

  told-settled :
      (answer : String × String) (s : S) (w : W) (r : Result GoalError (Goal × S))
      → is_settled answer.0 ≡ true
      → IsAnswer (told backend defaults team answer s w r)
  told-settled answer s w (err e) h = refl
  told-settled answer s w (ok p) h = h

  record_verdict-settled :
      (g : Goal) (i : ℕ) (a : Attempt) (s : S) (w : W)
      → IsAnswer (record_verdict backend defaults team g i (verdict a) s w)
  record_verdict-settled g i a s w = elim (Option-cases (verdict a)) [
    | inl n ↦ rw n
    | inr (p, n) ↦ rw n (
        told-settled p s w
          (transition backend defaults g none
            (some (record { position = i; status = p.0; result = some p.1 })) s)
          (verdict-settled a p n))
  ]

  work_on-settled :
      (goal_id : String) (g : Goal) (found : Option (ℕ × Subtask)) (s : S) (w : W)
      → IsAnswer (work_on backend defaults team goal_id g found s w)
  work_on-settled goal_id g none s w = refl
  work_on-settled goal_id g (some (i, t)) s w = record_verdict-settled g i _ s _

  work_in-settled :
      (goal_id subtask_id : String) (r : Result GoalError Goal) (s : S) (w : W)
      → IsAnswer (work_in backend defaults team goal_id subtask_id r s w)
  work_in-settled goal_id subtask_id (err e) s w = refl
  work_in-settled goal_id subtask_id (ok g) s w =
      work_on-settled goal_id g (find_subtask subtask_id g.subtasks) s w

  job-settled :
      (goal_id subtask_id : String) (s : S) (w : W)
      → IsAnswer (subtask_job backend defaults team goal_id subtask_id s w)
  unfolding subtask_job
  job-settled goal_id subtask_id s w =
      work_in-settled goal_id subtask_id (load backend defaults goal_id s) s w

  -- What `_execute_subtask` of the subtask at `i` does to the goal.
  record Stepped (i : ℕ) (g h : Goal) : Type 0 where
    state : h.state ≡ "waiting"
    same_id : h.id ≡ g.id
    size : length h.subtasks ≡ length g.subtasks
    texts : descriptions h.subtasks ≡ descriptions g.subtasks
    settled : All IsSettled (take i g.subtasks) → All IsSettled (take (suc i) h.subtasks)

  moved-Stepped :
      (i : ℕ) (g : Goal) (status result : String)
      → is_settled status ≡ true
      → Stepped i g (
          moved backend defaults
            (some "waiting")
            (some (record { position = i; status = status; result = some result }))
            (moved backend defaults
              (some "running")
              (some (record { position = i; status = "running"; result = none }))
              g))
  unfolding moved
  moved-Stepped i g status result h = record {
    state = refl;
    same_id = refl;
    size = length-mark i status (some result) _ ∙ length-mark i "running" none g.subtasks;
    texts =
        descriptions-mark i status (some result) _ ∙ descriptions-mark i "running" none g.subtasks;
    settled = λ a.
        IsSettled-mark i status (some result) _ h
          (subst (All IsSettled) (sym (take-mark i "running" none g.subtasks)) a);
  }

  execute_subtask-Stepped :
      (g : Goal) (i : ℕ) (s : S) (w : W) (r : Goal × S × W)
      → execute_subtask backend defaults team g i s w ≡ ok r
      → Stepped i g r.0
  unfolding execute_subtask
  execute_subtask-Stepped g i s w r h =
      let (p, a, h1) =
        >>=-eq-ok
          (transition backend defaults g (some "running")
            (some (record { position = i; status = "running"; result = none })) s)
          _ h in
      let job =
        subtask_job backend defaults team g.id (id_at i g.subtasks) (team.between i p.1) w in
      let answer = answered backend defaults team job.0 in
      let (q, b, h2) =
        >>=-eq-ok
          (transition backend defaults p.0 (some "waiting")
            (some (record { position = i; status = answer.0; result = some answer.1 })) job.1)
          _ h1 in
      let first = (load-transition backend defaults g p.0 _ _ s p.1 a).0 in
      let second = (load-transition backend defaults p.0 q.0 _ _ job.1 q.1 b).0 in
      let third : q.0 ≡ r.0 = ap (λ x. x.0) (ok-injective h2) in
      subst (Stepped i g) (sym second ∙ third) (
        subst
          (λ x. Stepped i g (
            moved backend defaults (some "waiting")
              (some (record { position = i; status = answer.0; result = some answer.1 })) x))
          (sym first)
          (moved-Stepped i g answer.0 answer.1
            (job-settled g.id (id_at i g.subtasks) (team.between i p.1) w)))

  -- A goal after a loop over all its subtasks.
  record Worked (g h : Goal) : Type 0 where
    same_id : h.id ≡ g.id
    texts : descriptions h.subtasks ≡ descriptions g.subtasks
    settled : All IsSettled h.subtasks

  run_from-Worked :
      (n i : ℕ) (g : Goal) (s : S) (w : W) (r : Goal × S × W)
      → length g.subtasks ≡ i + n
      → (g.state == "cancelled") ≡ false
      → All IsSettled (take i g.subtasks)
      → run_from backend defaults team n i g s w ≡ ok r
      → Worked g r.0
  unfolding run_from
  run_from-Worked zero i g s w r l c a h =
      let q : g ≡ r.0 = ap (λ x. x.0) (ok-injective h) in
      let whole : i ≡ length g.subtasks = omega (arith, l) in
      subst (Worked g) q (record {
        same_id = refl;
        texts = refl;
        settled =
            subst (All IsSettled) (take-all g.subtasks)
              (subst (λ k. All IsSettled (take k g.subtasks)) whole a);
      })
  run_from-Worked (suc n) i g s w r l c a h =
      let h' : (execute_subtask backend defaults team g i s w >>= λ p.
      run_from backend defaults team n (i + 1) p.0 p.1 p.2)
          ≡ ok r =
        rw c at h in
      let (p, e, h2) = >>=-eq-ok (execute_subtask backend defaults team g i s w) _ h' in
      let step = execute_subtask-Stepped g i s w p e in
      let follows : suc i ≡ i + 1 = omega arith in
      let next : All IsSettled (take (i + 1) p.0.subtasks) =
        subst (λ k. All IsSettled (take k p.0.subtasks)) follows (step.settled a) in
      let rest =
        run_from-Worked n (i + 1) p.0 p.1 p.2 r (omega (arith, l, step.size)) (rw step.state refl)
          next h2 in
      record {
        same_id = rest.same_id ∙ step.same_id;
        texts = rest.texts ∙ step.texts;
        settled = rest.settled;
      }

  -- How a goal ends: each subtask done or failed, and the goal failed exactly if one of them has; the
  -- store has it so.
  pub record Ended (id : String) (g : Goal) (s : S) : Type 0 where
    pub named : g.id ≡ id
    pub settled : All IsSettled g.subtasks
    pub state : g.state ≡ (if any is_failed g.subtasks then "failed" else "done")
    pub stored : load backend defaults id s ≡ ok g

  finish-Ended :
      (g : Goal) (s : S) (w : W) (r : Goal × S × W)
      → All IsSettled g.subtasks
      → finish backend defaults team g s w ≡ ok r
      → Ended g.id r.0 r.1 × (r.0.subtasks ≡ g.subtasks)
  unfolding finish moved
  finish-Ended g s w r a h =
      let state = (if any is_failed g.subtasks then "failed" else "done") in
      let (p, e, h1) = >>=-eq-ok (transition backend defaults g (some state) none s) _ h in
      let (m, l) = load-transition backend defaults g p.0 (some state) none s p.1 e in
      let same : p ≡ (r.0, r.1) = ap (λ x. (x.0, x.1)) (ok-injective h1) in
      subst (λ x. Ended g.id x.0 x.1 × (x.0.subtasks ≡ g.subtasks)) same
        (
          record {
            named = ap (λ x. x.id) m;
            settled = subst (λ x. All IsSettled x.subtasks) (sym m) a;
            state =
                subst (λ x. x.state ≡ (if any is_failed x.subtasks then "failed" else "done"))
                  (sym m) refl;
            stored = l;
          },
          ap (λ x. x.subtasks) m,
        )

  work-Ended :
      (g : Goal) (s : S) (w : W) (r : Goal × S × W)
      → work backend defaults team g s w ≡ ok r
      → Ended g.id r.0 r.1 × (descriptions r.0.subtasks ≡ descriptions g.subtasks)
  unfolding work moved
  work-Ended g s w r h =
      let (q, d, h1) = >>=-eq-ok (transition backend defaults g (some "running") none s) _ h in
      let m = (load-transition backend defaults g q.0 (some "running") none s q.1 d).0 in
      let (t, e, h2) =
        >>=-eq-ok (run_from backend defaults team (length q.0.subtasks) 0 q.0 q.1 w) _ h1 in
      let running : q.0.state ≡ "running" = ap (λ x. x.state) m in
      let worked =
        run_from-Worked (length q.0.subtasks) 0 q.0 q.1 w t (omega arith) (rw running refl) tt e in
      let (ended, same) = finish-Ended t.0 t.1 t.2 r worked.settled h2 in
      (
        subst (λ id. Ended id r.0 r.1) (worked.same_id ∙ ap (λ x. x.id) m) ended,
        ap descriptions same ∙ worked.texts ∙ ap (λ x. descriptions x.subtasks) m,
      )

  prepare-id :
      (description context : String) (s : S) (w : W) (p : Goal × S × W)
      → prepare backend defaults team description context s w ≡ ok p
      → p.0.id ≡ defaults.goal_id
  unfolding prepare moved
  prepare-id description context s w p h =
      let (s1, a, h1) = >>=-eq-ok (create backend defaults _ s) _ h in
      let (q, b, h2) = >>=-eq-ok (transition backend defaults _ (some "planning") none s1) _ h1 in
      let (steps, d, h3) = >>=-eq-ok (planned_by backend defaults team (team.plan q.0 w).0) _ h2 in
      let (s2, c, h4) = >>=-eq-ok (save backend defaults _ q.1) _ h3 in
      ap (λ x. x.0.id) (sym (ok-injective h4))
      ∙ ap (λ x. x.id) (load-transition backend defaults _ q.0 (some "planning") none s1 q.1 b).0

  -- A goal that was run to its end has each subtask done or failed, and is itself failed if one of them
  -- has, and otherwise done, whatever other tasks do to the store meanwhile: a goal that is cancelled
  -- meanwhile is no exception. The store has it so.
  pub run-Ended :
      (description context : String) (s : S) (w : W) (r : Goal × S × W)
      → run backend defaults team description context s w ≡ ok r
      → Ended defaults.goal_id r.0 r.1
  unfolding run
  run-Ended description context s w r h =
      let (p, a, h1) = >>=-eq-ok (prepare backend defaults team description context s w) _ h in
      subst (λ id. Ended id r.0 r.1) (prepare-id description context s w p a)
        (work-Ended p.0 p.1 p.2 r h1).0
