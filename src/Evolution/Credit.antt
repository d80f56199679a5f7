-- ===== src/Evolution/Credit.antt =====
-- How verdicts move the credibility of conjectures.
use swaybot.Prelude.{
  ◌≡◌, refl, sym, subst, String, true, false, Option, none, some, List, [], ◌∷◌, string_eq, All,
  if_induction,
}
use swaybot.Prelude.Float.{Floats, fmin, fmax}
use swaybot.Memory.Steps.{Step, Body, memory, reflection, body_credibility}
use swaybot.Memory.Store.{Store, save, memories-save}
use swaybot.Evolution.Protocol.{
  Verdict, verdict_of, verdicts, fallback, named_verdict, Texts, final_answer, stated_verdict,
}
use swaybot.Evolution.Weighing.{
  Delta, up, down, still, delta_of, moved, judged, is_conjecture_on, judge_all, weigh,
  update_conjecture,
}
use swaybot.Prelude.{elem}
use swaybot.Json.{Fields, Value, str, field_of}
use swaybot.Agent.Environment.{Entry}

module _ {F : Type 0} (fl : Floats F) where
  -- Neither below 0 nor above 1, for what has a credibility.
  abbrev pub InUnit : F → Type 0
  InUnit c = (fl.lt c (fl.lit 0) ≡ false) × (fl.lt (fl.lit 10) c ≡ false)

  abbrev pub CreditInUnit : Option F → Type 0
  CreditInUnit none = Unit
  CreditInUnit (some c) = InUnit c

  below_one : (c : F) → fl.lt (fl.lit 10) (fmin fl (fl.lit 10) c) ≡ false
  below_one c =
      if_induction (λ x. fl.lt (fl.lit 10) x ≡ false) (fl.lt c (fl.lit 10))
        (λ less. fl.lt_asymm c (fl.lit 10) less) (λ more. fl.lt-lit 10 10)

  clamped-InUnit : (c : F) → InUnit (fmax fl (fl.lit 0) (fmin fl (fl.lit 10) c))
  clamped-InUnit c =
      if_induction InUnit (fl.lt (fl.lit 0) (fmin fl (fl.lit 10) c))
        (λ above. (fl.lt_asymm (fl.lit 0) (fmin fl (fl.lit 10) c) above, below_one c))
        (λ below. (fl.lt-lit 0 0, fl.lt-lit 10 0))

  judged-InUnit :
      (delta : Delta) (now : String) (body : Body F)
      → CreditInUnit (body_credibility body)
      → CreditInUnit (body_credibility (judged fl delta now body))
  unfolding judged moved
  judged-InUnit up now (memory b) fine = clamped-InUnit (fl.add b.credibility (fl.lit 2))
  judged-InUnit down now (memory b) fine = clamped-InUnit (fl.sub b.credibility (fl.lit 3))
  judged-InUnit up now (reflection r) fine = clamped-InUnit (fl.add r.credibility (fl.lit 2))
  judged-InUnit down now (reflection r) fine = clamped-InUnit (fl.sub r.credibility (fl.lit 3))
  judged-InUnit still now body fine = fine
  judged-InUnit _ now body fine = fine

  judge_all-InUnit :
      (question : String) (delta : Delta) (now : String) (ms : List (Step F))
      → All (λ m. CreditInUnit (body_credibility m.body)) ms
      → All (λ m. CreditInUnit (body_credibility m.body)) (judge_all fl question delta now ms)
  unfolding judge_all
  judge_all-InUnit question delta now [] fine = tt
  judge_all-InUnit question delta now (m ∷ ms) (here, there) = (
    if_induction (λ (n : Step F). CreditInUnit (body_credibility n.body))
        (is_conjecture_on question m) (λ about. judged-InUnit delta now m.body here)
        (λ other. here),
    judge_all-InUnit question delta now ms there,
  )

  saved-InUnit :
      (s : Store F)
      → All (λ m. CreditInUnit (body_credibility m.body)) s.memories
      → All (λ m. CreditInUnit (body_credibility m.body)) (save s).memories
  saved-InUnit s = subst (All (λ m. CreditInUnit (body_credibility m.body))) (sym (memories-save s))

  weigh-InUnit :
      (question : String) (delta : Delta) (now : String) (s : Store F)
      → All (λ m. CreditInUnit (body_credibility m.body)) s.memories
      → All (λ m. CreditInUnit (body_credibility m.body)) (weigh fl question delta now s).memories
  weigh-InUnit question still now s fine = fine
  weigh-InUnit question up now s fine =
      saved-InUnit _ (judge_all-InUnit question up now s.memories fine)
  weigh-InUnit question down now s fine =
      saved-InUnit _ (judge_all-InUnit question down now s.memories fine)

  -- A verdict, whatever it is, leaves credibilities between 0 and 1 if they were.
  pub update_conjecture-InUnit :
      (question verdict now : String) (s : Store F)
      → All (λ m. CreditInUnit (body_credibility m.body)) s.memories
      → All
          (λ m. CreditInUnit (body_credibility m.body))
          (update_conjecture fl question verdict now s).memories
  unfolding update_conjecture
  update_conjecture-InUnit question verdict = weigh-InUnit question (delta_of verdict)

-- `elem` of the three verdicts.
abbrev pub IsVerdict : Verdict → Type 0
IsVerdict v = elem v.verdict verdicts ≡ true

module _ (texts : Texts) where
  named_verdict-IsVerdict :
      (final : String) (vs : List String)
      → All (λ v. elem v verdicts ≡ true) vs
      → IsVerdict (named_verdict texts final vs)
  unfolding named_verdict
  named_verdict-IsVerdict final [] every = refl
  named_verdict-IsVerdict final (v ∷ vs) (here, there) =
      if_induction IsVerdict (texts.mentions v final) (λ named. here)
        (λ other. named_verdict-IsVerdict final vs there)

  fallback-IsVerdict : (reversed : List Entry) → IsVerdict (fallback texts reversed)
  fallback-IsVerdict reversed =
      named_verdict-IsVerdict (final_answer texts reversed) _ (refl, (refl, (refl, tt)))

  stated-IsVerdict :
      (value : Option Value) (fs : Fields) (reversed : List Entry)
      → IsVerdict (stated_verdict texts value fs reversed)
  stated-IsVerdict none fs reversed = fallback-IsVerdict reversed
  stated-IsVerdict (some (str v)) fs reversed =
      if_induction IsVerdict (elem v verdicts) (λ one_of. one_of)
        (λ other. fallback-IsVerdict reversed)
  stated-IsVerdict (some _) fs reversed = fallback-IsVerdict reversed

  -- Whatever the brain answers and the run was, the verdict is one of the three.
  pub verdict_of-IsVerdict :
      (parsed : Option Fields) (reversed : List Entry)
      → IsVerdict (verdict_of texts parsed reversed)
  unfolding verdict_of
  verdict_of-IsVerdict none reversed = fallback-IsVerdict reversed
  verdict_of-IsVerdict (some fs) reversed = stated-IsVerdict (field_of "verdict" fs) fs reversed
