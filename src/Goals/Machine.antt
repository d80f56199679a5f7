-- ===== src/Goals/Machine.antt =====
-- `GoalStateMachine` of swaybot/goals/coordinator.py over any backend. The clock stands still.
use swaybot.Prelude.{
  ℕ, zero, suc, String, ◌≡◌, refl, ap, sym, subst, ◌∙◌, Option, none, some, List, [], ◌∷◌, arith,
  Result, ok, err, ◌>>=◌, >>=-eq-ok, ok-injective, string_eq,
}
use swaybot.Prelude.Text.{◌⧺◌}
use swaybot.Json.{Value, obj}
use swaybot.Storage.Records.{StorageError, Backend}
use swaybot.Goals.Goal.{
  Goal, Subtask, GoalError, storage, missing, Defaults, goal_fields, deserialize,
  deserialize-goal_fields,
}

-- `_key`
abbrev pub goal_key : String → String
goal_key id = "goal:" ⧺ id

-- What `transition` does to one subtask, given by its position.
pub record Change : Type 0 where
  pub position : ℕ
  pub status : String
  pub result : Option String

abbrev pub changed : String → Option String → Subtask → Subtask
changed status none s = record s { status = status }
changed status (some result) s = record s { status = status; result = result }

unfoldable pub mark : ℕ → String → Option String → List Subtask → List Subtask
mark n status result [] = []
mark zero status result (s ∷ ss) = changed status result s ∷ ss
mark (suc n) status result (s ∷ ss) = s ∷ mark n status result ss

abbrev stored {ℓ} : {A : Type ℓ} → Result StorageError A → Result GoalError A
stored (ok a) = ok a
stored (err e) = err (storage e)

module _ {S : Type 0} (backend : Backend S) (defaults : Defaults) where
  -- `_touch`
  abbrev pub touch : Goal → Goal
  touch g = record g { updated_at = defaults.now }

  unfoldable pub save : Goal → S → Result GoalError S
  save g s = stored (backend.save (goal_key g.id) (obj (goal_fields (touch g))) s)

  unfoldable pub create : Goal → S → Result GoalError S
  create g s = save (touch g) s

  abbrev loaded : String → Value → Result GoalError Goal
  loaded id (obj fs) = deserialize defaults fs
  loaded id _ = err (missing id)

  unfoldable pub load : String → S → Result GoalError Goal
  load id s = stored (backend.load (goal_key id) s) >>= λ v. loaded id v

  -- The stored values under "goal:" that are objects.
  abbrev read : Value → Result GoalError (Option Goal)
  read (obj fs) = deserialize defaults fs >>= λ g. ok (some g)
  read _ = ok none

  abbrev collected : Option Goal → List Goal → List Goal
  collected none gs = gs
  collected (some g) gs = g ∷ gs

  unfoldable pub goals_at : List String → S → Result GoalError (List Goal)
  goals_at [] s = ok []
  goals_at (k ∷ ks) s =
      stored (backend.load k s) >>= λ v. read v >>= λ g. goals_at ks s >>= λ gs. ok (collected g gs)

  unfoldable pub list_goals : S → Result GoalError (List Goal)
  list_goals s = goals_at (backend.list_keys "goal:" s) s

  abbrev with_state : Option String → Goal → Goal
  with_state none g = g
  with_state (some state) g = record g { state = state }

  abbrev with_change : Option Change → Goal → Goal
  with_change none g = g
  with_change (some c) g = record g { subtasks = mark c.position c.status c.result g.subtasks }

  -- The goal that `transition` leaves.
  unfoldable pub moved : Option String → Option Change → Goal → Goal
  moved state change g = touch (with_change change (with_state state g))

  unfoldable pub transition : Goal → Option String → Option Change → S → Result GoalError (Goal × S)
  transition g state change s =
      save (with_change change (with_state state g)) s >>= λ t. ok (moved state change g, t)

  -- `cancel`
  unfoldable pub cancel : String → S → Result GoalError (Goal × S)
  cancel id s = load id s >>= λ g. transition g (some "cancelled") none s

  stored-ok {ℓ} : {A : Type ℓ} (m : Result StorageError A) (a : A) → stored m ≡ ok a → m ≡ ok a
  stored-ok (ok b) a h = ap (λ x. ok x) (ok-injective h)
  stored-ok (err e) a h = ground (arith, h)

  -- A goal that was saved is loaded as it was, with the time of the saving.
  pub load-save_goal : (g : Goal) (s t : S) → save g s ≡ ok t → load g.id t ≡ ok (touch g)
  unfolding save load
  load-save_goal g s t h =
      let e =
        backend.load-save (goal_key g.id) (obj (goal_fields (touch g))) s t (stored-ok _ t h) in
      rw (e, deserialize-goal_fields defaults (touch g))

  same_id :
      (state : Option String) (change : Option Change) (g : Goal)
      → (with_change change (with_state state g)).id ≡ g.id
  same_id none none g = refl
  same_id none (some c) g = refl
  same_id (some t) none g = refl
  same_id (some t) (some c) g = refl

  moved-eq :
      (state : Option String) (change : Option Change) (g : Goal)
      → touch (with_change change (with_state state g)) ≡ moved state change g
  unfolding moved
  moved-eq state change g = refl

  -- What `transition` returns is what is loaded next.
  pub load-transition :
      (g h : Goal) (state : Option String) (change : Option Change) (s t : S)
      → transition g state change s ≡ ok (h, t)
      → (h ≡ moved state change g) × (load g.id t ≡ ok h)
  unfolding transition
  load-transition g h state change s t e =
      let next = with_change change (with_state state g) in
      let (u, p, q) = >>=-eq-ok (save next s) (λ t. ok (moved state change g, t)) e in
      let pair : ◌≡◌ {A = Goal × S} (moved state change g, u) (h, t) = ok-injective q in
      let first : moved state change g ≡ h = ap (λ x. x.0) pair in
      let second : u ≡ t = ap (λ x. x.1) pair in
      (
        sym first,
        subst (λ id. load id t ≡ ok h) (same_id state change g)
            (subst (λ v. load next.id v ≡ ok h) second
              (load-save_goal next s u p ∙ ap (λ x. ok x) (moved-eq state change g ∙ first))),
      )
