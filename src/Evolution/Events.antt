-- ===== src/Evolution/Events.antt =====
-- The events of `cycle`, and its verdicts.
use swaybot.Evolution.Credit.{IsVerdict, verdict_of-IsVerdict}
use swaybot.Prelude.{
  ℕ, zero, suc, ◌+◌, ◌*◌, ◌≤◌, ◌≡◌, refl, arith, String, Option, none, some, List, [], ◌∷◌, ◌++◌,
  leb, ◌==◌, string_eq, length, length-append, when_some_induction, if_induction,
}
use swaybot.Prelude.Float.{Floats}
use swaybot.Memory.Steps.{Step, content}
use swaybot.Memory.Store.{Store}
use swaybot.Evolution.Questions.{depth}
use swaybot.Evolution.Protocol.{Texts, Protocol, Verdict, Run}
use swaybot.Evolution.Director.{
  Explorer, Limits, exploration_begin, experiment_designed, experiment_recorded,
  sub_questions_added, exploration_end, listed, Event, summary_of, decomposed, decompose, conclude,
  prepare, round, rounds, chosen, cycle, adjudicate_run,
}
use swaybot.Evolution.Questions.{open_candidates}

-- The exploration rounds among the events.
abbrev pub begins : List Event → ℕ
begins [] = 0
begins (exploration_begin h t ∷ es) = suc (begins es)
begins (_ ∷ es) = begins es

begins-append : (es fs : List Event) → begins (es ++ fs) ≡ begins es + begins fs
begins-append [] fs = omega arith
begins-append (exploration_begin h t ∷ es) fs = omega (arith, begins-append es fs)
begins-append (_ ∷ es) fs = begins-append es fs

-- At most `n` rounds, of four or five events each.
abbrev pub Counted : ℕ → List Event → Type 0
Counted n es = (begins es ≤ n) × (4 * begins es ≤ length es) × (length es ≤ 5 * begins es)

Counted-append :
    {n : ℕ} (es fs : List Event)
    → (begins es ≡ 1) × (4 ≤ length es) × (length es ≤ 5)
    → Counted n fs
    → Counted (suc n) (es ++ fs)
Counted-append es fs (one, least, most) (few, above, below) = (
  omega (arith, begins-append es fs, one, few),
  omega (arith, begins-append es fs, length-append es fs, one, least, above),
  omega (arith, begins-append es fs, length-append es fs, one, most, below),
)

-- The events of a round's end: `among` is that of a decomposition, if any.
abbrev IsSub : Option Event → Type 0
IsSub none = Unit
IsSub (some (sub_questions_added parent)) = Unit
IsSub (some _) = ⊥

abbrev closing : Option Event → String → String → List Event
closing among summary status =
    experiment_recorded summary ∷ listed among ++ exploration_end status ∷ []

closing-events :
    (among : Option Event) (summary status : String)
    → IsSub among
    → (begins (closing among summary status) ≡ 0)
      × (2 ≤ length (closing among summary status))
      × (length (closing among summary status) ≤ 3)
closing-events none summary status sub = (refl, omega arith, omega arith)
closing-events (some (sub_questions_added parent)) summary status sub =
    (refl, omega arith, omega arith)
closing-events (some (exploration_begin h t)) summary status sub = absurd sub
closing-events (some (experiment_designed c)) summary status sub = absurd sub
closing-events (some (experiment_recorded c)) summary status sub = absurd sub
closing-events (some (exploration_end c)) summary status sub = absurd sub

opening-events :
    (hypothesis task conjecture : String) (es : List Event)
    → (begins es ≡ 0) × (2 ≤ length es) × (length es ≤ 3)
    → (begins (exploration_begin hypothesis task ∷ experiment_designed conjecture ∷ es) ≡ 1)
      × (4 ≤ suc (suc (length es)))
      × (suc (suc (length es)) ≤ 5)
opening-events hypothesis task conjecture es (none_begins, least, most) =
    (omega (arith, none_begins), omega (arith, least), omega (arith, most))

module _ {F W : Type 0} (fl : Floats F) (words : String → List String) (clean : String → String)
    (texts : Texts) (explorer : Explorer F W) (limits : Limits) where
  decomposed-IsSub :
      (entry : Step F) (qs : List String) (now : String) (s : Store F)
      → IsSub (decomposed fl words clean texts explorer limits entry qs now s).0
  unfolding decomposed
  decomposed-IsSub entry [] now s = tt
  decomposed-IsSub entry (q ∷ qs) now s = tt

  decompose-IsSub :
      (entry : Step F) (s : Store F) (w : W)
      → IsSub (decompose fl words clean texts explorer limits entry s w).0
  unfolding decompose
  decompose-IsSub entry s w =
      if_induction {A = Option Event × Store F × W} (λ result. IsSub result.0)
        (leb limits.max_depth (depth entry)) (λ deep. tt) (λ room. decomposed-IsSub entry _ _ s)

  conclude-events :
      (entry : Step F) (plan : Protocol) (run : Run) (verdict : Verdict) (s : Store F) (w : W)
      → (begins (conclude fl words clean texts explorer limits entry plan run verdict s w).0 ≡ 0)
        × (2 ≤ length (conclude fl words clean texts explorer limits entry plan run verdict s w).0)
        × (length (conclude fl words clean texts explorer limits entry plan run verdict s w).0 ≤ 3)
  unfolding conclude
  conclude-events entry plan run verdict s w =
      closing-events _ (summary_of fl words clean texts explorer limits run plan verdict) _ (
        if_induction {A = Option Event × Store F × W} (λ result. IsSub result.0)
          (verdict.verdict == "inconclusive") (λ open_still. decompose-IsSub entry _ w)
          (λ settled. tt))

  round-events :
      (entry : Step F) (s : Store F) (w : W)
      → (begins (round fl words clean texts explorer limits entry s w).0 ≡ 1)
        × (4 ≤ length (round fl words clean texts explorer limits entry s w).0)
        × (length (round fl words clean texts explorer limits entry s w).0 ≤ 5)
  unfolding round
  round-events entry s w =
      let plan : Protocol = (prepare fl words clean texts explorer limits entry s w).0 in
      opening-events (content entry) plan.task plan.conjecture _
        (conclude-events entry plan _ _ _ _)

  rounds-Counted :
      (n : ℕ) (s : Store F) (w : W)
      → Counted n (rounds fl words clean texts explorer limits n s w).0
  unfolding rounds
  rounds-Counted zero s w = (omega arith, omega arith, omega arith)
  rounds-Counted (suc n) s w =
      when_some_induction {B = List Event × Store F × W} (λ result. Counted (suc n) result.0)
        (chosen fl words clean texts explorer limits (open_candidates fl s))
        (λ closed. (omega arith, omega arith, omega arith))
        (λ entry open_still.
          let after : List Event × Store F × W =
            round fl words clean texts explorer limits entry s w in
          Counted-append after.0 _ (round-events entry s w) (rounds-Counted n after.1 after.2))

  -- A cycle runs at most `max_runs` rounds and emits four or five events for each of them.
  pub cycle-Counted :
      (s : Store F) (w : W)
      → Counted limits.max_runs (cycle fl words clean texts explorer limits s w).0
  unfolding cycle
  cycle-Counted = rounds-Counted limits.max_runs

  -- Whatever the brain answers and the run was, the verdict is one of the three.
  pub adjudicate_run-IsVerdict :
      (plan : Protocol) (run : Run) (w : W)
      → IsVerdict (adjudicate_run fl words clean texts explorer limits plan run w).0
  unfolding adjudicate_run
  adjudicate_run-IsVerdict plan run w = verdict_of-IsVerdict texts _ _
