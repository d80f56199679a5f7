-- ===== src/Memory/Steps.antt =====
-- The steps of swaybot/memory.py. A step is the fields that every class has, and those of its class.
-- `F` is Python's `float`; a timestamp is its text.
use swaybot.Prelude.{ℕ, String, Bool, true, false, List, Option, none, some}
use swaybot.Json.{Value}

-- `Memory`
pub record Belief (F : Type 0) : Type 0 where
  pub content : String
  pub evidence : String
  pub credibility : F
  pub surprise : F
  pub relation : String
  pub applicability : String
  pub supported_count : ℕ
  pub refuted_count : ℕ
  pub last_verified_at : String

-- `ReflectionStep`
pub record Insight (F : Type 0) : Type 0 where
  pub content : String
  pub credibility : F
  pub evidence : List String
  pub status : String
  pub relation : String
  pub depth : ℕ
  pub applicability : String
  pub last_verified_at : String

-- What `ActionStep` keeps of the call to the model.
pub record CallInfo : Type 0 where
  pub model_input_messages : Option Value
  pub raw_output : Option String
  pub token_usage : Option Value
  pub duration_ms : Option String

-- One constructor for each class.
pub data Body (F : Type 0) : Type 0 where
  memory : Belief F → Body F
  task : String → ℕ → Body F
  action : ℕ → Value → CallInfo → Body F
  observation : ℕ → String → Body F
  planning : List String → Body F
  reflection : Insight F → Body F

pub record Step (F : Type 0) : Type 0 where
  pub kind : String
  pub scope : String
  pub source : String
  pub tags : List String
  pub created_at : String
  pub body : Body F

module _ {F : Type 0} where
  -- `getattr(step, "content", "")`
  abbrev pub body_content : Body F → String
  body_content (memory b) = b.content
  body_content (reflection r) = r.content
  body_content _ = ""

  abbrev pub content : Step F → String
  content m = body_content m.body

  abbrev pub body_credibility : Body F → Option F
  body_credibility (memory b) = some b.credibility
  body_credibility (reflection r) = some r.credibility
  body_credibility _ = none

  -- The credibility, where the class has one.
  abbrev pub credibility : Step F → Option F
  credibility m = body_credibility m.body

  -- `step.credibility = c`, where the class has it.
  abbrev pub with_credibility : F → Body F → Body F
  with_credibility c (memory b) = memory (record b { credibility = c })
  with_credibility c (reflection r) = reflection (record r { credibility = c })
  with_credibility c other = other

  -- `getattr(step, "surprise", d)`
  abbrev pub surprise_or : F → Body F → F
  surprise_or d (memory b) = b.surprise
  surprise_or d _ = d

  -- `isinstance(step, TaskStep)`
  abbrev pub is_task : Body F → Bool
  is_task (task _ _) = true
  is_task _ = false
