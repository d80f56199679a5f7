-- ===== src/Evolution/Questions.antt =====
-- The open questions of the memory and their states: `open_candidates` and `_set_status` of
-- swaybot/evolution.py, and the steps that it makes. A step without the attribute has its default.
use swaybot.Prelude.{
  ℕ, String, Bool, true, false, ◌&&◌, none, List, [], ◌∷◌, ◌++◌, leb, ◌==◌, string_eq, filter,
  if◌then◌else◌,
}
use swaybot.Prelude.Float.{Floats}
use swaybot.Memory.Steps.{Step, Body, memory, reflection, content}
use swaybot.Memory.Store.{Store, save, is_question}
use swaybot.Memory.Queries.{query}

module _ {F : Type 0} where
  -- `getattr(m, "status", "open")`
  abbrev pub status_of : Body F → String
  status_of (reflection r) = r.status
  status_of _ = "open"

  -- `int(getattr(m, "depth", 0) or 0)`
  abbrev pub depth_of : Body F → ℕ
  depth_of (reflection r) = r.depth
  depth_of _ = 0

  abbrev pub depth : Step F → ℕ
  depth m = depth_of m.body

  -- `getattr(m, "relation", "")`
  abbrev pub relation_of : Body F → String
  relation_of (memory b) = b.relation
  relation_of (reflection r) = r.relation
  relation_of _ = ""

  abbrev pub is_open : Step F → Bool
  is_open m = status_of m.body == "open"

  -- `sorted(pool, key=depth)`, which is stable.
  unfoldable pub insert_by_depth : Step F → List (Step F) → List (Step F)
  insert_by_depth m [] = m ∷ []
  insert_by_depth m (first ∷ rest) =
      let inserted = insert_by_depth m rest in
      if leb (depth m) (depth first) then m ∷ first ∷ rest else first ∷ inserted

  unfoldable pub sort_by_depth : List (Step F) → List (Step F)
  unfolding insert_by_depth
  sort_by_depth [] = []
  sort_by_depth (m ∷ ms) = insert_by_depth m (sort_by_depth ms)

  -- `mem.status = status`, where the class declares it.
  abbrev pub with_status : String → Body F → Body F
  with_status status (reflection r) = reflection (record r { status = status })
  with_status status other = other

  abbrev pub is_insight : Body F → Bool
  is_insight (reflection r) = true
  is_insight _ = false

  -- The entries that `_set_status` writes to.
  abbrev pub is_about : String → Step F → Bool
  is_about hypothesis m = is_insight m.body && is_question m.kind && content m == hypothesis

  unfoldable pub mark_status : String → String → List (Step F) → List (Step F)
  mark_status hypothesis status [] = []
  mark_status hypothesis status (m ∷ ms) =
      (if is_about hypothesis m then record m { body = with_status status m.body } else m)
      ∷ mark_status hypothesis status ms

  -- `_set_status`
  unfoldable pub set_status : String → String → Store F → Store F
  set_status hypothesis status s =
      save (record s { memories = mark_status hypothesis status s.memories })

module _ {F : Type 0} (fl : Floats F) where
  -- The open entries of a kind among the last 50 of it.
  unfoldable pub open_of : String → List (Step F) → List (Step F)
  open_of kind ms = filter is_open (query fl "" kind "long_term" none 50 ms)

  -- `open_candidates`
  unfoldable pub open_candidates : Store F → List (Step F)
  open_candidates s =
      sort_by_depth (open_of "contradiction" s.memories ++ open_of "question" s.memories)

  -- `ReflectionStep(content=..., kind=..., scope="long_term", ...)` with the defaults of the class.
  abbrev pub insight : String → String → F → String → ℕ → String → Step F
  insight kind text credibility parent deep now = record {
    kind = kind;
    scope = "long_term";
    source = "reflector";
    tags = [];
    created_at = now;
    body = reflection (record {
      content = text;
      credibility = credibility;
      evidence = [];
      status = "open";
      relation = parent;
      depth = deep;
      applicability = "";
      last_verified_at = "";
    });
  }

  abbrev pub question : String → String → ℕ → String → Step F
  question text = insight "question" text (fl.lit 5)

  -- `Memory(..., source="director")`
  abbrev pub finding : String → String → F → String → String → String → Step F
  finding kind text credibility about applicability now = record {
    kind = kind;
    scope = "long_term";
    source = "director";
    tags = kind ∷ [];
    created_at = now;
    body = memory (record {
      content = text;
      evidence = "";
      credibility = credibility;
      surprise = fl.lit 0;
      relation = about;
      applicability = applicability;
      supported_count = 0;
      refuted_count = 0;
      last_verified_at = "";
    });
  }
