-- ===== src/Memory/Relevance.antt =====
-- `query_relevant` and `find_counterexamples` of swaybot/memory.py. A score is a quotient of two
-- sizes, compared by cross-multiplication; Python's rounded quotients come in the same order.
use swaybot.Prelude.{
  ℕ, zero, suc, ◌+◌, ◌*◌, ◌≤◌, ◌≡◌, String, Bool, true, false, none, some, not, ◌&&◌, List, [], ◌∷◌,
  ◌++◌, arith, leb, nat_eq, string_eq, elem, length, take, filter, All, length-take-le, map,
  if◌then◌else◌, Bool-cases, inl, inr,
}
use swaybot.Prelude.Float.{Floats}
use swaybot.Memory.Steps.{Step, content, surprise_or, credibility}
use swaybot.Memory.Tokens.{tokenize, to_set, keywords, both, union_size}
use swaybot.Memory.Store.{passes_scope, is_empty}

-- A step with its score `num / den`.
pub record Scored (F : Type 0) : Type 0 where
  pub num : ℕ
  pub den : ℕ
  pub step : Step F

module _ {F : Type 0} where
  -- `a` scores at least as much as `b`.
  abbrev pub at_least : Scored F → Scored F → Bool
  at_least a b = leb (b.num * a.den) (a.num * b.den)

  -- Python's stable sort, the highest score first.
  unfoldable pub insert_scored : Scored F → List (Scored F) → List (Scored F)
  insert_scored a [] = a ∷ []
  insert_scored a (b ∷ bs) = if at_least a b then a ∷ b ∷ bs else b ∷ insert_scored a bs

  unfoldable pub by_score : List (Scored F) → List (Scored F)
  unfolding insert_scored
  by_score [] = []
  by_score (a ∷ as_) = insert_scored a (by_score as_)

  abbrev steps_of : List (Scored F) → List (Step F)
  steps_of = map (λ s. s.step)

  -- No neighbour to the right scores more.
  abbrev pub IsDescending : List (Scored F) → Type 0
  IsDescending [] = Unit
  IsDescending (a ∷ []) = Unit
  IsDescending (a ∷ b ∷ bs) = (at_least a b ≡ true) × IsDescending (b ∷ bs)

module _ {F : Type 0} (split : String → List String) (clean : String → String) where
  abbrev score : String → Step F → Scored F
  score query m =
      let a = keywords split clean query in
      let b = keywords split clean (content m) in
      let den = union_size a b in
      record {
        num = (if elem query m.tags then length (both a b) + den else length (both a b));
        den = den;
        step = m;
      }

  -- The steps that the loop scores: in scope, with a word in common with the query.
  abbrev pub is_related : String → String → Step F → Bool
  is_related query scope m =
      passes_scope scope m
      && (not (is_empty (keywords split clean (content m)))
          && not (is_empty (both (keywords split clean query) (keywords split clean (content m)))))

  unfoldable pub scored : String → String → List (Step F) → List (Scored F)
  scored query scope ms = map (score query) (filter (is_related query scope) ms)

  unfoldable pub query_relevant : String → String → ℕ → List (Step F) → List (Step F)
  unfolding scored by_score
  query_relevant query scope limit ms =
      if is_empty (keywords split clean query)
      then []
      else steps_of (take limit (by_score (scored query scope ms)))

abbrev pub negation_markers : List String
negation_markers =
    "not" ∷ "no" ∷ "never" ∷ "none" ∷ "nobody" ∷ "nothing" ∷ "nowhere" ∷ "neither" ∷ "nor"
    ∷ "hardly" ∷ "barely" ∷ "scarcely" ∷ []

abbrev pub contradiction_markers : List String
contradiction_markers =
    "but" ∷ "however" ∷ "yet" ∷ "although" ∷ "though" ∷ "except" ∷ "unless" ∷ "instead" ∷ "rather"
    ∷ "contradict" ∷ "disprove" ∷ "refute" ∷ "deny" ∷ "false" ∷ "wrong" ∷ []

module _ {F : Type 0} (fl : Floats F) (split : String → List String) (clean : String → String) where
  abbrev words : String → List String
  words text = to_set (tokenize split clean text)

  -- `getattr(m, "credibility", 1.0) <= 0.7`
  abbrev is_doubtful : Step F → Bool
  is_doubtful m = elim (credibility m) [
    | none ↦ fl.le (fl.lit 10) (fl.lit 7)
    | some c ↦ fl.le c (fl.lit 7)
  ]

  -- The body of the loop of `find_counterexamples`.
  abbrev pub is_counterexample : List String → Step F → Bool
  is_counterexample claim m =
      if is_empty (both claim (words (content m)))
      then false
      else if fl.lt (fl.lit 5) (surprise_or (fl.lit 0) m.body)
      then true
      else if is_doubtful m
      then false
      else not (is_empty (both (words (content m)) (negation_markers ++ contradiction_markers)))

  unfoldable pub find_counterexamples : String → List (Step F) → List (Step F)
  unfolding to_set
  find_counterexamples claim ms =
      if is_empty (words claim) then [] else filter (is_counterexample (words claim)) ms

module _ {F : Type 0} where
  at_least_total : (a b : Scored F) → at_least a b ≡ false → at_least b a ≡ true
  at_least_total a b h = ground arith

  insert_scored-IsDescending :
      (a : Scored F) (bs : List (Scored F)) → IsDescending bs → IsDescending (insert_scored a bs)
  unfolding insert_scored
  insert_scored-IsDescending a [] h = tt
  insert_scored-IsDescending a (b ∷ []) h = elim (Bool-cases (at_least a b)) [
    | inl e ↦ rw e (e, tt)
    | inr e ↦ rw e (at_least_total a b e, tt)
  ]
  insert_scored-IsDescending a (b ∷ c ∷ bs) h =
      let ih = insert_scored-IsDescending a (c ∷ bs) h.1 in
      elim (Bool-cases (at_least a b)) [
        | inl e ↦ rw e (e, h)
        | inr e ↦ rw e (elim (Bool-cases (at_least a c)) [
          | inl g ↦ rw g (at_least_total a b e, rw g at ih)
          | inr g ↦ rw g (h.0, rw g at ih)
        ])
      ]

  by_score-IsDescending : (xs : List (Scored F)) → IsDescending (by_score xs)
  unfolding by_score
  by_score-IsDescending [] = tt
  by_score-IsDescending (a ∷ xs) =
      insert_scored-IsDescending a (by_score xs) (by_score-IsDescending xs)

  take-IsDescending : (n : ℕ) (xs : List (Scored F)) → IsDescending xs → IsDescending (take n xs)
  take-IsDescending zero xs h = tt
  take-IsDescending (suc n) [] h = tt
  take-IsDescending (suc zero) (a ∷ xs) h = tt
  take-IsDescending (suc (suc n)) (a ∷ []) h = tt
  take-IsDescending (suc (suc n)) (a ∷ b ∷ xs) h = (h.0, take-IsDescending (suc n) (b ∷ xs) h.1)

  All-insert_scored :
      (P : Scored F → Type 0) (a : Scored F) (bs : List (Scored F))
      → P a
      → All P bs
      → All P (insert_scored a bs)
  unfolding insert_scored
  All-insert_scored P a [] h k = (h, tt)
  All-insert_scored P a (b ∷ bs) h k = elim (Bool-cases (at_least a b)) [
    | inl e ↦ rw e (h, k)
    | inr e ↦ rw e (k.0, All-insert_scored P a bs h k.1)
  ]

  All-by_score : (P : Scored F → Type 0) (xs : List (Scored F)) → All P xs → All P (by_score xs)
  unfolding by_score
  All-by_score P [] h = tt
  All-by_score P (a ∷ xs) h = All-insert_scored P a (by_score xs) h.0 (All-by_score P xs h.1)

  All-take : (P : Scored F → Type 0) (n : ℕ) (xs : List (Scored F)) → All P xs → All P (take n xs)
  All-take P zero xs h = tt
  All-take P (suc n) [] h = tt
  All-take P (suc n) (a ∷ xs) h = (h.0, All-take P n xs h.1)

module _ {F : Type 0} (split : String → List String) (clean : String → String) where
  All-scored :
      (query scope : String) (ms : List (Step F))
      → All
          (λ s. is_related split clean query scope s.step ≡ true)
          (scored split clean query scope ms)
  unfolding scored
  All-scored query scope [] = tt
  All-scored query scope (m ∷ ms) = elim (Bool-cases (is_related split clean query scope m)) [
    | inl e ↦ rw e (e, All-scored query scope ms)
    | inr e ↦ rw e (All-scored query scope ms)
  ]

  -- The answer of `query_relevant` is the steps of a list that falls in score, each step in scope and
  -- with a word in common with the query, and at most `limit` of them.
  pub query_relevant_sound :
      (query scope : String) (limit : ℕ) (ms : List (Step F))
      → (found : List (Scored F)) × (query_relevant split clean query scope limit ms
          ≡ map (λ s. s.step) found)
        × IsDescending found
        × All (λ s. is_related split clean query scope s.step ≡ true) found
        × (length found ≤ limit)
  unfolding query_relevant
  query_relevant_sound query scope limit ms =
      elim (Bool-cases (is_empty (keywords split clean query))) [
        | inl e ↦ ([], rw e, tt, tt, omega arith)
        | inr e ↦
            let all = by_score (scored split clean query scope ms) in
            (
              take limit all,
              rw e,
              take-IsDescending limit all
                  (by_score-IsDescending (scored split clean query scope ms)),
              All-take _ limit all (All-by_score _ _ (All-scored query scope ms)),
              length-take-le limit all,
            )
      ]
