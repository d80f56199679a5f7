-- ===== src/Evolution/Weighing.antt =====
-- `_update_conjecture` of swaybot/evolution.py: a verdict moves the credibility of the conjectures.
use swaybot.Prelude.{
  ◌+◌, String, Bool, true, false, ◌&&◌, List, [], ◌∷◌, ◌==◌, string_eq, if◌then◌else◌,
}
use swaybot.Prelude.Float.{Floats, fmin, fmax}
use swaybot.Memory.Steps.{Step, Body, memory, reflection}
use swaybot.Memory.Store.{Store, save}
use swaybot.Evolution.Questions.{relation_of, question}

-- `{"supported": 0.2, "refuted": -0.3}.get(verdict, 0.0)`
pub data Delta : Type 0 where
  up down still : Delta

abbrev pub delta_of : String → Delta
delta_of verdict =
    if verdict == "supported" then up else if verdict == "refuted" then down else still

module _ {F : Type 0} where
  -- `hasattr(mem, "credibility")`
  abbrev pub is_belief : Body F → Bool
  is_belief (memory b) = true
  is_belief (reflection r) = true
  is_belief _ = false

  -- The entries that `_update_conjecture` writes to.
  abbrev pub is_conjecture_on : String → Step F → Bool
  is_conjecture_on question m =
      is_belief m.body && m.kind == "conjecture" && relation_of m.body == question

module _ {F : Type 0} (fl : Floats F) where
  -- `max(0.0, min(1.0, credibility + delta))`
  unfoldable pub moved : Delta → F → F
  moved up c = fmax fl (fl.lit 0) (fmin fl (fl.lit 10) (fl.add c (fl.lit 2)))
  moved down c = fmax fl (fl.lit 0) (fmin fl (fl.lit 10) (fl.sub c (fl.lit 3)))
  moved still c = c

  -- What a verdict does to the fields of an entry. The counts are fields of `Memory` alone.
  unfoldable pub judged : Delta → String → Body F → Body F
  judged up now (memory b) = memory (record b {
    credibility = moved up b.credibility;
    supported_count = b.supported_count + 1;
    last_verified_at = now;
  })
  judged down now (memory b) =
      memory
        (record b { credibility = moved down b.credibility; refuted_count = b.refuted_count + 1 })
  judged up now (reflection r) =
      reflection (record r { credibility = moved up r.credibility; last_verified_at = now })
  judged down now (reflection r) = reflection (record r { credibility = moved down r.credibility })
  judged _ now other = other

  unfoldable pub judge_all : String → Delta → String → List (Step F) → List (Step F)
  judge_all question delta now [] = []
  judge_all question delta now (m ∷ ms) =
      (if is_conjecture_on question m then record m { body = judged delta now m.body } else m)
      ∷ judge_all question delta now ms

  abbrev pub weigh : String → Delta → String → Store F → Store F
  weigh question still now s = s
  weigh question up now s = save (record s { memories = judge_all question up now s.memories })
  weigh question down now s = save (record s { memories = judge_all question down now s.memories })

  -- `_update_conjecture`
  unfoldable pub update_conjecture : String → String → String → Store F → Store F
  update_conjecture question verdict = weigh question (delta_of verdict)
