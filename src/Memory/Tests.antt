-- ===== src/Memory/Tests.antt =====
-- The store on a few steps.
use swaybot.Prelude.{
  ℕ, ◌≤◌, ◌<◌, ◌≡◌, ◌⊎◌, refl, String, true, false, not, none, some, List, [], ◌∷◌, ◌++◌, nat_eq,
  string_eq, length, any, filter,
}
use swaybot.Prelude.Float.{tenths}
use swaybot.Json.{Value}
use swaybot.Memory.Steps.{Step, memory, observation}
use swaybot.Memory.Sameness.{step_eq}
use swaybot.Memory.Store.{Store, add_to, corroborate, is_duplicate, batch, prune, matches}
use swaybot.Memory.Saving.{add_one, prune_by, apply_all, batch_lem}
use swaybot.Memory.Merging.{add_to-cases}
use swaybot.Memory.Queries.{iter_short_term}
use swaybot.Memory.Pruning.{excess, drop_first, prune-drop_first}
use swaybot.Memory.Compaction.{AutoCompact, candidates, compact, window}
use swaybot.Memory.Window.{Compacted, compact-Compacted, compact-bounded}

abbrev split : String → List String
split s = s ∷ []

abbrev same : String → String
same s = s

abbrev show : Value → String
show v = "shown"

abbrev seen : String → Step ℕ
seen text = record {
  kind = "experience";
  scope = "short_term";
  source = "agent.run";
  tags = "t" ∷ [];
  created_at = "now";
  body = observation 1 text;
}

abbrev theory : String → Step ℕ
theory text = record {
  kind = "theory";
  scope = "long_term";
  source = "brain";
  tags = [];
  created_at = "now";
  body = memory (record {
    content = text;
    evidence = "";
    credibility = 9;
    surprise = 0;
    relation = "";
    applicability = "";
    supported_count = 0;
    refuted_count = 0;
    last_verified_at = "";
  });
}

abbrev steps : List (Step ℕ)
steps = theory "gravity" ∷ seen "fell" ∷ seen "rose" ∷ seen "hung" ∷ []

abbrev store : Store ℕ
store = record { memories = steps; batch_depth = 0; disk = none; writes = 0 }

add_to-cases_example :
    (add_to tenths split same (theory "gravity") steps ≡ steps ++ theory "gravity" ∷ [])
      × (any (is_duplicate split same (theory "gravity")) steps ≡ false)
    ⊎ ((before : List (Step ℕ)) × (it : Step ℕ) × (behind : List (Step ℕ)) × (steps
          ≡ before ++ it ∷ behind)
        × (add_to tenths split same (theory "gravity") steps
            ≡ before ++ corroborate tenths it ∷ behind)
        × (is_duplicate split same (theory "gravity") it ≡ true)
        × (any (is_duplicate split same (theory "gravity")) before ≡ false))
add_to-cases_example = add_to-cases tenths split same (theory "gravity") steps

batch_lem_example :
    let ops = add_one (seen "new") ∷ prune_by "short_term" "" 1 ∷ [] in
    let after = (batch (λ t. (store.writes, apply_all tenths split same ops t)) store).1 in
    (after.memories ≡ (apply_all tenths split same ops store).memories)
    × (after.batch_depth ≡ 0)
    × (after.writes ≡ 1)
    × (after.disk ≡ some (apply_all tenths split same ops store).memories)
batch_lem_example =
    batch_lem tenths split same store.writes
      (add_one (seen "new") ∷ prune_by "short_term" "" 1 ∷ []) store

prune-drop_first_example :
    ((prune "short_term" "t" 1 store).1 ≡ excess "short_term" "t" 1 store)
    × ((prune "short_term" "t" 1 store).0.memories
        ≡ drop_first (excess "short_term" "t" 1 store) (matches "short_term" "t") steps)
    × ((0 < 1)
        ⊎ ((prune "short_term" "t" 1 store).0.memories
            ≡ filter (λ m. not (matches "short_term" "t" m)) steps))
prune-drop_first_example = prune-drop_first "short_term" "t" 1 store

abbrev compactor : AutoCompact ℕ
compactor = record { brain = none; max_steps = 2; max_context_chars = 1000 }

compact-Compacted_example :
    Compacted tenths split same show same "now"
      (some "t")
      2
      store
      (compact tenths split same show same "now" compactor (some "t") store).0
    × ((compact tenths split same show same "now" compactor (some "t") store).1 ≡ true)
unfolding window candidates iter_short_term
compact-Compacted_example =
    compact-Compacted tenths split same show same "now" compactor (some "t") store 2 refl

compact-bounded_example :
    (length (
        candidates
          (some "t")
          (compact tenths split same show same "now" compactor (some "t") store).0.memories)
      ≤ 2)
    × (((compact tenths split same show same "now" compactor (some "t") store).1 ≡ true)
        ⊎ ((compact tenths split same show same "now" compactor (some "t") store).0 ≡ store))
compact-bounded_example =
    compact-bounded tenths split same show same "now" compactor (some "t") store
