-- ===== src/Memory/Store.antt =====
-- `MemoryStore` of swaybot/memory.py: adding, merging, pruning and saving. What the backend holds
-- under the store's key is `disk`; `writes` counts the calls of `backend.save`.
use swaybot.Prelude.{
  ℕ, zero, suc, ◌+◌, ◌-◌, ◌≡◌, arith, String, Bool, true, false, not, ◌&&◌, ◌||◌, Option, none,
  some, List, [], ◌∷◌, ◌++◌, ltb, ◌==◌, nat_eq, string_eq, elem, length, take, if◌then◌else◌,
}
use swaybot.Prelude.Float.{Floats, fmin}
use swaybot.Memory.Steps.{Step, Body, body_credibility, content, with_credibility}
use swaybot.Memory.Tokens.{keywords, is_similar}

pub record Store (F : Type 0) : Type 0 where
  pub memories : List (Step F)
  pub batch_depth : ℕ
  pub disk : Option (List (Step F))
  pub writes : ℕ

abbrev pub is_empty : List String → Bool
is_empty [] = true
is_empty (w ∷ ws) = false

-- Applies `f` to the first element that passes; `none` if there is none.
unfoldable pub update_first {ℓ} : {A : Type ℓ} → (A → Bool) → (A → A) → List A → Option (List A)
update_first p f [] = none
update_first p f (x ∷ xs) =
    let rest = update_first p f xs in
    if p x then some (f x ∷ xs) else elim rest [ none ↦ none | some ys ↦ some (x ∷ ys) ]

module _ {F : Type 0} where
  unfoldable pub save : Store F → Store F
  save s =
      if s.batch_depth == 0 then record s { disk = some s.memories; writes = s.writes + 1 } else s

  pub memories-save : (s : Store F) → (save s).memories ≡ s.memories
  unfolding save
  memories-save s = ground arith

  -- `batch()` round a body, which may raise: what it answers is given back after the save.
  unfoldable pub enter : Store F → Store F
  enter s = record s { batch_depth = s.batch_depth + 1 }

  unfoldable pub leave : Store F → Store F
  leave s = save (record s { batch_depth = s.batch_depth - 1 })

  unfoldable pub batch {ℓ} : {A : Type ℓ} → (Store F → A × Store F) → Store F → A × Store F
  unfolding enter leave
  batch body s = let (answer, s') = body (enter s) in (answer, leave s')

  -- `scope` and `tag` filters, where `None` and "" let everything pass.
  abbrev pub passes_scope : String → Step F → Bool
  passes_scope scope m = scope == "" || m.scope == scope

  abbrev pub passes_tag : String → Step F → Bool
  passes_tag tag m = tag == "" || elem tag m.tags

  -- `prune` looks for the positions that match, from `i` on.
  abbrev pub matches : String → String → Step F → Bool
  matches scope tag m = passes_scope scope m && passes_tag tag m

abbrev pub is_settled : String → Bool
is_settled kind = kind == "theory" || (kind == "verification" || kind == "experiment")

abbrev pub is_question : String → Bool
is_question kind = kind == "question" || kind == "contradiction"

-- The positions, from `i` on, of the elements that pass.
unfoldable pub positions {ℓ} : {A : Type ℓ} → (A → Bool) → ℕ → List A → List ℕ
positions p i [] = []
positions p i (x ∷ xs) = let rest = positions p (i + 1) xs in if p x then i ∷ rest else rest

-- `del xs[i]`
unfoldable pub delete_at {ℓ} : {A : Type ℓ} → ℕ → List A → List A
delete_at i [] = []
delete_at zero (x ∷ xs) = xs
delete_at (suc i) (x ∷ xs) = x ∷ delete_at i xs

-- `for i in reversed(indices): del xs[i]`
unfoldable pub delete_reversed {ℓ} : {A : Type ℓ} → List ℕ → List A → List A
unfolding delete_at
delete_reversed [] xs = xs
delete_reversed (i ∷ is) xs = delete_at i (delete_reversed is xs)

-- `indices[:-keep_last]` if `keep_last > 0`
abbrev pub all_but_last : ℕ → List ℕ → List ℕ
all_but_last keep is = if ltb 0 keep then take (length is - keep) is else is

module _ {F : Type 0} where
  -- `prune`: the new store and the number of removed steps.
  unfoldable pub prune : String → String → ℕ → Store F → Store F × ℕ
  prune scope tag keep_last s =
      let indices = all_but_last keep_last (positions (matches scope tag) 0 s.memories) in
      (save (record s { memories = delete_reversed indices s.memories }), length indices)

  unfoldable pub add_steps : List (Step F) → Store F → Store F
  add_steps steps s = save (record s { memories = s.memories ++ steps })

  -- The same kind of long-term entry.
  abbrev pub same_shelf : Step F → Step F → Bool
  same_shelf m existing = existing.scope == "long_term" && existing.kind == m.kind

module _ {F : Type 0} (fl : Floats F) where
  -- `min(1.0, credibility + 0.1)`, and the tag.
  abbrev raised : Body F → Body F
  raised b = elim (body_credibility b) [
    | none ↦ b
    | some c ↦ with_credibility (fmin fl (fl.lit 10) (fl.add c (fl.lit 1))) b
  ]

  abbrev pub corroborated_tags : List String → List String
  corroborated_tags tags = if elem "corroborated" tags then tags else tags ++ "corroborated" ∷ []

  unfoldable pub corroborate : Step F → Step F
  corroborate m = record m { body = raised m.body; tags = corroborated_tags m.tags }

module _ {F : Type 0} (split : String → List String) (clean : String → String) where
  abbrev overlaps : Step F → Step F → Bool
  overlaps m existing =
      let words = keywords split clean (content existing) in
      if is_empty words then false else is_similar (keywords split clean (content m)) words

  abbrev restates : Step F → Step F → Bool
  restates m existing =
      same_shelf m existing && (content existing == content m || overlaps m existing)

  -- The test by which `_find_mergeable` picks the entry that `m` restates.
  unfoldable pub is_duplicate : Step F → Step F → Bool
  is_duplicate m existing =
      if not (m.scope == "long_term")
      then false
      else if content m == ""
      then false
      else if is_question m.kind
      then same_shelf m existing && content existing == content m
      else if not (is_settled m.kind)
      then false
      else if is_empty (keywords split clean (content m))
      then false
      else restates m existing

module _ {F : Type 0} (fl : Floats F) (split : String → List String) (clean : String → String) where
  unfoldable pub add_to : Step F → List (Step F) → List (Step F)
  add_to m ms = elim (update_first (is_duplicate split clean m) (corroborate fl) ms) [
    | none ↦ ms ++ m ∷ []
    | some merged ↦ merged
  ]

  unfoldable pub add : Step F → Store F → Store F
  add m s = save (record s { memories = add_to m s.memories })
