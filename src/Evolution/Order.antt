-- ===== src/Evolution/Order.antt =====
-- The order in which the director takes the open questions.
use swaybot.Prelude.{
  ℕ, ◌≤◌, ◌≡◌, refl, arith, ap, String, true, ◌&&◌, none, List, [], ◌∷◌, ◌++◌, leb, string_eq,
  filter, if◌then◌else◌, All, All-append, All-filter, All-map, if_induction, leb→le, filter-append,
  ◌∙◌,
}
use swaybot.Prelude.Float.{Floats}
use swaybot.Memory.Steps.{Step}
use swaybot.Memory.Store.{Store}
use swaybot.Memory.Queries.{query}
use swaybot.Evolution.Questions.{
  depth, is_open, insert_by_depth, sort_by_depth, open_of, open_candidates,
}

module _ {F : Type 0} where
  -- No step is shallower than one before it.
  abbrev pub IsSorted : List (Step F) → Type 0
  IsSorted [] = Unit
  IsSorted (m ∷ ms) = All (λ n. depth m ≤ depth n) ms × IsSorted ms

  -- The steps of one depth keep their order.
  abbrev pub at_depth : ℕ → List (Step F) → List (Step F)
  at_depth d ms = filter (λ m. leb (depth m) d && leb d (depth m)) ms

  All-insert_by_depth :
      (Holds : Step F → Type 0) (m : Step F) (ms : List (Step F))
      → Holds m
      → All Holds ms
      → All Holds (insert_by_depth m ms)
  unfolding insert_by_depth
  All-insert_by_depth Holds m [] here others = (here, tt)
  All-insert_by_depth Holds m (first ∷ rest) here (next, others) =
      if_induction (All Holds) (leb (depth m) (depth first)) (λ before. (here, (next, others)))
        (λ after. (next, All-insert_by_depth Holds m rest here others))

  All-sort_by_depth :
      (Holds : Step F → Type 0) (ms : List (Step F)) → All Holds ms → All Holds (sort_by_depth ms)
  unfolding sort_by_depth
  All-sort_by_depth Holds [] every = tt
  All-sort_by_depth Holds (m ∷ ms) (here, others) =
      All-insert_by_depth Holds m (sort_by_depth ms) here (All-sort_by_depth Holds ms others)

  insert_by_depth-IsSorted :
      (m : Step F) (ms : List (Step F)) → IsSorted ms → IsSorted (insert_by_depth m ms)
  unfolding insert_by_depth
  insert_by_depth-IsSorted m [] sorted = (tt, tt)
  insert_by_depth-IsSorted m (first ∷ rest) (least, sorted) =
      if_induction IsSorted (leb (depth m) (depth first))
        (λ before. (
          (
            leb→le (depth m) (depth first) before,
            All-map rest (λ n le. omega (arith, le, leb→le (depth m) (depth first) before)) least,
          ),
          (least, sorted),
        ))
        (λ after. (
          All-insert_by_depth (λ n. depth first ≤ depth n) m rest (ground (arith, after)) least,
          insert_by_depth-IsSorted m rest sorted,
        ))

  sort_by_depth-IsSorted : (ms : List (Step F)) → IsSorted (sort_by_depth ms)
  unfolding sort_by_depth
  sort_by_depth-IsSorted [] = tt
  sort_by_depth-IsSorted (m ∷ ms) =
      insert_by_depth-IsSorted m (sort_by_depth ms) (sort_by_depth-IsSorted ms)

  at_depth-insert :
      (d : ℕ) (m : Step F) (ms : List (Step F))
      → at_depth d (insert_by_depth m ms) ≡ at_depth d (m ∷ ms)
  unfolding insert_by_depth
  at_depth-insert d m [] = refl
  at_depth-insert d m (first ∷ rest) = ground (arith, at_depth-insert d m rest)

  at_depth-sort : (d : ℕ) (ms : List (Step F)) → at_depth d (sort_by_depth ms) ≡ at_depth d ms
  unfolding sort_by_depth
  at_depth-sort d [] = refl
  at_depth-sort d (m ∷ ms) =
      at_depth-insert d m (sort_by_depth ms)
      ∙ ap (λ rest. if leb (depth m) d && leb d (depth m) then m ∷ rest else rest)
          (at_depth-sort d ms)

module _ {F : Type 0} (fl : Floats F) where
  open_of-open :
      (kind : String) (ms : List (Step F)) → All (λ m. is_open m ≡ true) (open_of fl kind ms)
  unfolding open_of
  open_of-open kind ms = All-filter is_open (query fl "" kind "long_term" none 50 ms)

  -- The director's candidates are open, none is shallower than one before it, and those of one depth are
  -- the contradictions and then the questions, in the order of the memory.
  pub open_candidates-IsSorted :
      (d : ℕ) (s : Store F)
      → IsSorted (open_candidates fl s)
        × All (λ m. is_open m ≡ true) (open_candidates fl s)
        × (at_depth d (open_candidates fl s)
            ≡ at_depth d (open_of fl "contradiction" s.memories)
              ++ at_depth d (open_of fl "question" s.memories))
  unfolding open_candidates
  open_candidates-IsSorted d s =
      let contradictions : List (Step F) = open_of fl "contradiction" s.memories in
      let questions : List (Step F) = open_of fl "question" s.memories in
      (
        sort_by_depth-IsSorted (contradictions ++ questions),
        All-sort_by_depth _ (contradictions ++ questions) (
            All-append _ contradictions questions (open_of-open "contradiction" s.memories)
              (open_of-open "question" s.memories)),
        at_depth-sort d (contradictions ++ questions) ∙ filter-append _ contradictions questions,
      )
