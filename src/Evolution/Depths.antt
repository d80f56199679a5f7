-- ===== src/Evolution/Depths.antt =====
-- The depths of the questions, which splitting a question keeps within the cap.
use swaybot.Prelude.{
  ℕ, ◌+◌, ◌≤◌, ◌≡◌, refl, arith, sym, subst, String, Bool, Option, none, some, List, [], ◌∷◌, ◌++◌,
  leb, string_eq, All, All-append, if_induction,
}
use swaybot.Prelude.Float.{Floats, fmin}
use swaybot.Memory.Steps.{
  Step, Body, memory, reflection, content, body_credibility, with_credibility,
}
use swaybot.Memory.Store.{
  Store, save, memories-save, update_first, corroborate, is_duplicate, add_to, add,
}
use swaybot.Evolution.Questions.{
  depth, depth_of, is_about, mark_status, set_status, question, with_status,
}
use swaybot.Evolution.Protocol.{Texts, parse_json_object, split}
use swaybot.Evolution.Director.{
  Explorer, Limits, Event, add_questions, decomposed, decompose, sub_questions,
}
use swaybot.Evolution.Weighing.{Delta, up, down, still, judged, is_conjecture_on, judge_all, weigh}

module _ {F : Type 0} (cap : ℕ) where
  -- Every step of the memory lies within the cap.
  abbrev pub Shallow : Store F → Type 0
  Shallow s = All (λ m. depth m ≤ cap) s.memories

  abbrev AllShallow : List (Step F) → Type 0
  AllShallow ms = All (λ m. depth m ≤ cap) ms

  pub saved-Shallow : (s : Store F) → Shallow s → Shallow (save s)
  saved-Shallow s = subst AllShallow (sym (memories-save s))

  mark_status-Shallow :
      (hypothesis status : String) (ms : List (Step F))
      → AllShallow ms
      → AllShallow (mark_status hypothesis status ms)
  unfolding mark_status
  mark_status-Shallow hypothesis status [] every = tt
  mark_status-Shallow hypothesis status (m ∷ ms) (here, there) = (
    if_induction (λ (n : Step F). depth n ≤ cap) (is_about hypothesis m)
        (λ about. subst (λ d. d ≤ cap) (sym (depth-with_status m.body)) here) (λ other. here),
    mark_status-Shallow hypothesis status ms there,
  )
    where
      depth-with_status : (b : Body F) → depth_of (with_status status b) ≡ depth_of b
      depth-with_status (reflection r) = refl
      depth-with_status _ = refl

  pub set_status-Shallow :
      (hypothesis status : String) (s : Store F)
      → Shallow s
      → Shallow (set_status hypothesis status s)
  unfolding set_status
  set_status-Shallow hypothesis status s every =
      saved-Shallow _ (mark_status-Shallow hypothesis status s.memories every)

  abbrev OptionShallow : Option (List (Step F)) → Type 0
  OptionShallow none = Unit
  OptionShallow (some ms) = AllShallow ms

  behind-Shallow :
      (m : Step F) (rest : Option (List (Step F)))
      → depth m ≤ cap
      → OptionShallow rest
      → OptionShallow (elim rest [ none ↦ none | some ys ↦ some (m ∷ ys) ])
  behind-Shallow m none here every = tt
  behind-Shallow m (some ys) here every = (here, every)

  update_first-Shallow :
      (p : Step F → Bool) (f : Step F → Step F) (ms : List (Step F))
      → ((m : Step F) → depth (f m) ≡ depth m)
      → AllShallow ms
      → OptionShallow (update_first p f ms)
  unfolding update_first
  update_first-Shallow p f [] same every = tt
  update_first-Shallow p f (m ∷ ms) same (here, there) =
      if_induction OptionShallow (p m) (λ chosen. (subst (λ d. d ≤ cap) (sym (same m)) here, there))
        (λ passed.
          behind-Shallow m (update_first p f ms) here (update_first-Shallow p f ms same there))

module _ {F : Type 0} (fl : Floats F) where
  depth-with_credibility : (c : F) (b : Body F) → depth_of (with_credibility c b) ≡ depth_of b
  depth-with_credibility c (reflection r) = refl
  depth-with_credibility c (memory b) = refl
  depth-with_credibility c _ = refl

  depth-credited :
      (g : F → F) (b : Body F) (o : Option F)
      → depth_of (elim o [ none ↦ b | some c ↦ with_credibility (g c) b ]) ≡ depth_of b
  depth-credited g b none = refl
  depth-credited g b (some c) = depth-with_credibility (g c) b

  depth-corroborate : (m : Step F) → depth (corroborate fl m) ≡ depth m
  unfolding corroborate
  depth-corroborate m =
      depth-credited (λ c. fmin fl (fl.lit 10) (fl.add c (fl.lit 1))) m.body
        (body_credibility m.body)

module _ {F : Type 0} (fl : Floats F) (words : String → List String) (clean : String → String)
    (cap : ℕ) where
  added-Shallow :
      (m : Step F) (ms : List (Step F)) (merged : Option (List (Step F)))
      → depth m ≤ cap
      → All (λ n. depth n ≤ cap) ms
      → OptionShallow cap merged
      → All (λ n. depth n ≤ cap) (elim merged [ none ↦ ms ++ m ∷ [] | some after ↦ after ])
  added-Shallow m ms none here every merged = All-append _ ms (m ∷ []) every (here, tt)
  added-Shallow m ms (some after) here every merged = merged

  pub add-Shallow :
      (m : Step F) (s : Store F)
      → depth m ≤ cap
      → Shallow cap s
      → Shallow cap (add fl words clean m s)
  unfolding add add_to
  add-Shallow m s here every = saved-Shallow cap _ (
      added-Shallow m s.memories
        (update_first (is_duplicate words clean m) (corroborate fl) s.memories) here every
        (update_first-Shallow cap (is_duplicate words clean m) (corroborate fl) s.memories
          (depth-corroborate fl) every))

  depth-judged :
      (delta : Delta) (now : String) (b : Body F) → depth_of (judged fl delta now b) ≡ depth_of b
  unfolding judged
  depth-judged up now (memory b) = refl
  depth-judged down now (memory b) = refl
  depth-judged up now (reflection r) = refl
  depth-judged down now (reflection r) = refl
  depth-judged _ now b = refl

  judge_all-Shallow :
      (question : String) (delta : Delta) (now : String) (ms : List (Step F))
      → All (λ n. depth n ≤ cap) ms
      → All (λ n. depth n ≤ cap) (judge_all fl question delta now ms)
  unfolding judge_all
  judge_all-Shallow question delta now [] every = tt
  judge_all-Shallow question delta now (m ∷ ms) (here, there) = (
    if_induction (λ (n : Step F). depth n ≤ cap) (is_conjecture_on question m)
        (λ about. subst (λ d. d ≤ cap) (sym (depth-judged delta now m.body)) here) (λ other. here),
    judge_all-Shallow question delta now ms there,
  )

  pub weigh-Shallow :
      (question : String) (delta : Delta) (now : String) (s : Store F)
      → Shallow cap s
      → Shallow cap (weigh fl question delta now s)
  weigh-Shallow question still now s every = every
  weigh-Shallow question up now s every =
      saved-Shallow cap _ (judge_all-Shallow question up now s.memories every)
  weigh-Shallow question down now s every =
      saved-Shallow cap _ (judge_all-Shallow question down now s.memories every)

module _ {F W : Type 0} (fl : Floats F) (words : String → List String) (clean : String → String)
    (texts : Texts) (explorer : Explorer F W) (limits : Limits) where
  add_questions-Shallow :
      (qs : List String) (parent : String) (deep : ℕ) (now : String) (s : Store F)
      → deep ≤ limits.max_depth
      → Shallow limits.max_depth s
      → Shallow limits.max_depth
          (add_questions fl words clean texts explorer limits qs parent deep now s)
  unfolding add_questions
  add_questions-Shallow [] parent deep now s fits every = every
  add_questions-Shallow (q ∷ qs) parent deep now s fits every =
      add_questions-Shallow qs parent deep now _ fits
        (add-Shallow fl words clean limits.max_depth (question fl q parent deep now) s fits every)

  decomposed-Shallow :
      (entry : Step F) (qs : List String) (now : String) (s : Store F)
      → depth entry + 1 ≤ limits.max_depth
      → Shallow limits.max_depth s
      → Shallow limits.max_depth (decomposed fl words clean texts explorer limits entry qs now s).1
  unfolding decomposed
  decomposed-Shallow entry [] now s room every = every
  decomposed-Shallow entry (q ∷ qs) now s room every =
      set_status-Shallow limits.max_depth (content entry) "decomposed" _
        (add_questions-Shallow (q ∷ qs) (content entry) (depth entry + 1) now s room every)

  pub decompose-Shallow :
      (entry : Step F) (s : Store F) (w : W)
      → Shallow limits.max_depth s
      → Shallow limits.max_depth (decompose fl words clean texts explorer limits entry s w).1
  unfolding decompose
  decompose-Shallow entry s w every =
      let answer : String × W = explorer.ask (split (content entry)) w in
      if_induction {A = Option Event × Store F × W} (λ result. Shallow limits.max_depth result.1)
        (leb limits.max_depth (depth entry)) (λ deep. every)
        (λ room.
          decomposed-Shallow entry (sub_questions texts (parse_json_object texts answer.0))
            (explorer.now answer.1) s (ground (arith, room)) every)
