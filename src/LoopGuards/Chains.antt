-- ===== src/LoopGuards/Chains.antt =====
-- What the chains of `RepeatCallGuard` (swaybot/loop_guards.py) count, and when they speak.
use swaybot.Prelude.{
  ℕ, ◌+◌, ◌≤◌, ◌≡◌, ◌↔◌, refl, String, Bool, false, Option, none, some, List, [], ◌∷◌, map, arith,
  ◌==◌, ==-iff, nat_eq, string_eq, elem, Eq, eq_of, string_discrete, ap, sym, ◌∙◌, All,
  if◌then◌else◌, eq_iff,
}
use swaybot.Json.{Value, arr, str, nil, cons}
use swaybot.Json.Sorting.{sort_value}
use native.Mathlib.Decide.{ℕ_discrete}
use swaybot.LoopGuards.Thresholds.{IsEscalating}
use swaybot.LoopGuards.Repeat.{
  Action, RepeatGuard, advance, observe, observe_all, call_key, canonicalize, reset,
}

-- A call by its name and its canonical arguments, and when two such are the same.
pub call_discrete : Discrete (String × Value)
call_discrete = hlevel (ℕ_discrete, string_discrete)

instance abbrev pub call_eq : Eq (String × Value)
call_eq = eq_of call_discrete

-- The length of the run of equal elements that a list begins with.
unfoldable pub run_length {ℓ} : {A : Type ℓ} ⦃e : Eq A⦄ → List A → ℕ
run_length [] = 0
run_length (k ∷ []) = 1
run_length (k ∷ j ∷ ks) = let rest = run_length (j ∷ ks) in if k == j then rest + 1 else 1

-- The calls, the latest first.
abbrev pub latest_first : List Action → List Action → List Action
latest_first past [] = past
latest_first past (a ∷ acts) = latest_first (a ∷ past) acts

abbrev head_key : List String → Option String
head_key [] = none
head_key (k ∷ ks) = some k

advance-run_length :
    (k : String) (ks : List String) → advance (head_key ks) (run_length ks) k ≡ run_length (k ∷ ks)
unfolding advance run_length
advance-run_length k [] = refl
advance-run_length k (j ∷ ks) = refl

module _ (le : String → String → Bool) (dumps : Value → String) where
  -- The guard's state, read off the calls since the reset.
  record Tracks (past : List Action) (g : RepeatGuard) : Type 0 where
    key_is : g.key ≡ head_key (map (call_key le dumps) past)
    count_is : g.count ≡ run_length (map (call_key le dumps) past)
    name_is : g.last_name ≡ head_key (map (λ a. a.name) past)
    name_count_is : g.name_count ≡ run_length (map (λ a. a.name) past)

  observe-Tracks :
      (a : Action) (past : List Action) (g : RepeatGuard)
      → Tracks past g
      → Tracks (a ∷ past) (observe le dumps a g).0
  unfolding observe
  observe-Tracks a past g t = record {
    key_is = refl;
    count_is = rw (t.key_is, t.count_is) (advance-run_length _ (map (call_key le dumps) past));
    name_is = refl;
    name_count_is = rw (t.name_is, t.name_count_is) (advance-run_length _ (map (λ a. a.name) past));
  }

  observe_all-Tracks :
      (acts past : List Action) (g : RepeatGuard)
      → Tracks past g
      → Tracks (latest_first past acts) (observe_all le dumps acts g)
  unfolding observe_all
  observe_all-Tracks [] past g t = t
  observe_all-Tracks (a ∷ acts) past g t =
      observe_all-Tracks acts (a ∷ past) (observe le dumps a g).0 (observe-Tracks a past g t)

  reset-Tracks : (g : RepeatGuard) → Tracks [] (reset g)
  unfolding reset run_length
  reset-Tracks g = record { key_is = refl; count_is = refl; name_is = refl; name_count_is = refl }

  observe_all-keys :
      (acts : List Action) (g : RepeatGuard)
      → ((observe_all le dumps acts (reset g)).count
          ≡ run_length (map (call_key le dumps) (latest_first [] acts)))
        × ((observe_all le dumps acts (reset g)).name_count
            ≡ run_length (map (λ a. a.name) (latest_first [] acts)))
  observe_all-keys acts g =
      let t = observe_all-Tracks acts [] (reset g) (reset-Tracks g) in (t.count_is, t.name_count_is)

  -- What two calls are compared by.
  abbrev pub canonical_call : Action → String × Value
  canonical_call a = (a.name, sort_value le a.args)

  module _ (loads : String → Option Value) where
    -- `json.loads` reads back what `json.dumps` writes of a value.
    abbrev pub Reads : Value → Type 0
    Reads v = loads (dumps v) ≡ some v

    -- So it does for the canonical arguments of a call, and for its name with their text.
    abbrev pub IsRead : Action → Type 0
    IsRead a =
        Reads (sort_value le a.args)
        × Reads (arr (cons (str a.name) (cons (str (dumps (sort_value le a.args))) nil)))

    same_key :
        (a b : Action)
        → IsRead a
        → IsRead b
        → (call_key le dumps a == call_key le dumps b) ≡ (canonical_call a == canonical_call b)
    unfolding call_key canonicalize
    same_key a b (args_a, key_a) (args_b, key_b) =
        ==-iff (call_key le dumps a) (call_key le dumps b) (canonical_call a) (canonical_call b) (
          λ keys.
              let h = sym key_a ∙ ap loads keys ∙ key_b in
              let names : a.name ≡ b.name = cc h in
              let texts : dumps (sort_value le a.args) ≡ dumps (sort_value le b.args) = cc h in
              let args = sym args_a ∙ ap loads texts ∙ args_b in
              let sorted : sort_value le a.args ≡ sort_value le b.args = cc args in
              cc (names, sorted),
          λ same. ap (λ c. dumps (arr (cons (str c.0) (cons (str (dumps c.1)) nil)))) same,
        )

    run_length-canonical :
        (acts : List Action)
        → All IsRead acts
        → run_length (map (call_key le dumps) acts) ≡ run_length (map canonical_call acts)
    unfolding run_length
    run_length-canonical [] read = refl
    run_length-canonical (a ∷ []) read = refl
    run_length-canonical (a ∷ b ∷ acts) (read, others) =
        let same = same_key a b read others.0 in rw (same, run_length-canonical (b ∷ acts) others)

    All-latest_first :
        (past acts : List Action)
        → All IsRead past
        → All IsRead acts
        → All IsRead (latest_first past acts)
    All-latest_first past [] before read = before
    All-latest_first past (a ∷ acts) before (read, others) =
        All-latest_first (a ∷ past) acts (read, before) others

    -- Where `json.loads` reads back what `json.dumps` writes of each call: after a reset and any calls,
    -- the exact chain's count is the number of latest calls in a row with one name and one canonical
    -- form of arguments, and the name chain's count that of latest calls in a row with one name.
    pub observe_all-run_length :
        (acts : List Action) (g : RepeatGuard)
        → All IsRead acts
        → ((observe_all le dumps acts (reset g)).count
            ≡ run_length (map canonical_call (latest_first [] acts)))
          × ((observe_all le dumps acts (reset g)).name_count
              ≡ run_length (map (λ a. a.name) (latest_first [] acts)))
    observe_all-run_length acts g read =
        let (count, names) = observe_all-keys acts g in
        (count ∙ run_length-canonical _ (All-latest_first [] acts tt read), names)

  -- A call is answered by a reminder exactly when one of the two new counts is a threshold.
  pub observe-silent_iff :
      (a : Action) (g : RepeatGuard)
      → ((observe le dumps a g).1 ≡ none) ↔ (
          (elem (observe le dumps a g).0.count g.thresholds ≡ false)
          × (elem (observe le dumps a g).0.name_count g.name_thresholds ≡ false))
  unfolding observe
  observe-silent_iff a g = ground arith

  -- The keys tell names apart, as `json.dumps` writes distinct lists of texts as distinct texts.
  module _
      (names_apart : (a b : Action)
        → call_key le dumps a ≡ call_key le dumps b
        → a.name ≡ b.name) where
    run_length-le :
        (acts : List Action)
        → run_length (map (call_key le dumps) acts) ≤ run_length (map (λ a. a.name) acts)
    unfolding run_length
    run_length-le [] = omega arith
    run_length-le (a ∷ []) = omega arith
    run_length-le (a ∷ b ∷ acts) = ground (
      arith,
      run_length-le (b ∷ acts),
      eq_iff a.name b.name,
      eq_iff (call_key le dumps a) (call_key le dumps b),
      names_apart a b,
    )

    -- The exact chain is never longer than the name chain, after a reset and any calls, where calls of
    -- different names have different keys.
    pub count-le-name_count :
        (acts : List Action) (g : RepeatGuard)
        → (observe_all le dumps acts (reset g)).count
          ≤ (observe_all le dumps acts (reset g)).name_count
    count-le-name_count acts g =
        let (c, n) = observe_all-keys acts g in rw (c, n) (run_length-le (latest_first [] acts))

  not-elem_one : (ts : List ℕ) (lo : ℕ) → 2 ≤ lo → IsEscalating lo ts → elem 1 ts ≡ false
  not-elem_one [] lo h e = refl
  not-elem_one (t ∷ ts) lo h e = ground (arith, not-elem_one ts (t + 1) (omega arith) e.1)

  -- With thresholds as the constructor leaves them, the first call after a reset draws no reminder.
  pub observe-reset :
      (a : Action) (g : RepeatGuard)
      → IsEscalating 2 g.thresholds
      → IsEscalating 2 g.name_thresholds
      → (observe le dumps a (reset g)).1 ≡ none
  unfolding observe reset
  observe-reset a g h k = simp (
    not-elem_one g.thresholds 2 (omega arith) h,
    not-elem_one g.name_thresholds 2 (omega arith) k,
  )
