-- ===== src/Tools/Concurrency.antt =====
-- The batch of calls and the calls one by one.
use swaybot.Prelude.{
  ℕ, ◌≡◌, refl, sym, ap, ◌∙◌, true, false, List, [], ◌∷◌, ◌++◌, map, Result, ok, err, ok-injective,
  append_assoc, if-true, if-false, append-nil, All, All-append, Result-cases, Bool-cases, inl, inr,
}
use swaybot.Json.{Value}
use swaybot.LoopGuards.Repeat.{Action}
use swaybot.Tools.Schema.{Tool, ToolError}
use swaybot.Tools.Registry.{ToolRegistry, execute}
use swaybot.Tools.Batch.{
  collect, is_parallel, after, single, dispatch, tool_of, one_by_one, run_group, batch_from,
  execute_batch,
}
use swaybot.Tools.Groups.{
  Parallel, answer_at, Quiet, Harmless, run_group-Quiet, after-ok, one_by_one-step, one_by_one-nil,
  one_by_one-group, all-Quiet, err-ok,
}

module _ {W : Type 0} (registry : ToolRegistry W) (threads : List Action → List ℕ) where
  group_end :
      Harmless registry
      → (group rest : List Action) (w w1 w2 : W) (us more : List Value)
      → All (Parallel registry) group
      → run_group registry threads group w ≡ (ok us, w1)
      → one_by_one registry rest w1 ≡ (ok more, w2)
      → one_by_one registry (group ++ rest) w ≡ (ok (us ++ more), w2)
  group_end harmless group rest w w1 w2 us more parallel ran went =
      let quiet : All (Quiet registry w) group = all-Quiet registry harmless w group parallel in
      let same : (collect (map (answer_at registry w) group), w) ≡ (ok us, w1) =
        sym (run_group-Quiet registry threads group w quiet) ∙ ran in
      one_by_one-group registry group rest w w2 us more parallel quiet (ap (λ p. p.0) same)
        (ap (one_by_one registry rest) (ap (λ p. p.1) same) ∙ went)

  abbrev joined : List Action → Action → List Action → W → Result ToolError (List Value) × W
  joined group a rest w = batch_from registry threads (group ++ a ∷ []) rest w

  abbrev alone : List Action → Action → List Action → W → Result ToolError (List Value) × W
  alone group a rest w =
      after (run_group registry threads group w)
        (λ w1. after (single (execute a registry w1)) (batch_from registry threads [] rest))

  batch_from-nil :
      (group : List Action) (w : W)
      → batch_from registry threads group [] w ≡ run_group registry threads group w
  unfolding batch_from
  batch_from-nil group w = refl

  batch_from-parallel :
      (group rest : List Action) (a : Action) (t : Tool W) (w : W)
      → tool_of registry a ≡ ok t
      → is_parallel t ≡ true
      → batch_from registry threads group (a ∷ rest) w
        ≡ batch_from registry threads (group ++ a ∷ []) rest w
  unfolding batch_from
  batch_from-parallel group rest a t w is_t p =
      ap (λ r. dispatch r w (joined group a rest w) (alone group a rest w)) is_t
      ∙ if-true (is_parallel t) (joined group a rest w) (alone group a rest w) p

  batch_from-alone :
      (group rest : List Action) (a : Action) (t : Tool W) (w : W)
      → tool_of registry a ≡ ok t
      → is_parallel t ≡ false
      → batch_from registry threads group (a ∷ rest) w
        ≡ after
            (run_group registry threads group w)
            (λ w1. after (single (execute a registry w1)) (batch_from registry threads [] rest))
  unfolding batch_from
  batch_from-alone group rest a t w is_t p =
      ap (λ r. dispatch r w (joined group a rest w) (alone group a rest w)) is_t
      ∙ if-false (is_parallel t) (joined group a rest w) (alone group a rest w) p

  batch_from-refused :
      (group rest : List Action) (a : Action) (e : ToolError) (w : W)
      → tool_of registry a ≡ err e
      → batch_from registry threads group (a ∷ rest) w ≡ (err e, w)
  unfolding batch_from
  batch_from-refused group rest a e w is_e =
      ap (λ r. dispatch r w (joined group a rest w) (alone group a rest w)) is_e

  single-ok :
      (p : Result ToolError Value × W) (vs : List Value) (w : W)
      → single p ≡ (ok vs, w)
      → (v : Value) × (p ≡ (ok v, w)) × (vs ≡ v ∷ [])
  single-ok (ok v, w1) vs w h =
      (v, ap (λ x. (ok v, x)) (ap (λ p. p.1) h), sym (ok-injective (ap (λ p. p.0) h)))
  single-ok (err e, w1) vs w h = absurd (err-ok (ap (λ p. p.0) h))

  -- A call that runs alone, between the group before it and the calls after it.
  alone_last :
      Harmless registry
      → (a : Action) (rest group : List Action) (vs : List Value) (w w' : W) (t : Tool W)
      → All (Parallel registry) group
      → tool_of registry a ≡ ok t
      → after
          (run_group registry threads group w)
          (λ w1. after (single (execute a registry w1)) (batch_from registry threads [] rest))
        ≡ (ok vs, w')
      → ((vs : List Value) (w w' : W)
          → Unit {0}
          → batch_from registry threads [] rest w ≡ (ok vs, w')
          → one_by_one registry rest w ≡ (ok vs, w'))
      → one_by_one registry (group ++ a ∷ rest) w ≡ (ok vs, w')
  alone_last harmless a rest group vs w w' t parallel is_t ran later =
      let (us, w1, more, group_ran, ran_on, q) = after-ok registry _ _ vs w' ran in
      let (ones, w2, others, one_ran, rest_ran, q2) = after-ok registry _ _ more w' ran_on in
      let (v, executed, is_one) = single-ok (execute a registry w1) ones w2 one_ran in
      let went : one_by_one registry (a ∷ rest) w1 ≡ (ok (v ∷ others), w') =
        one_by_one-step registry a rest t v others w1 w2 w' is_t executed
          (later others w2 w' tt rest_ran) in
      group_end harmless group (a ∷ rest) w w1 w' us (v ∷ others) parallel group_ran went
      ∙ ap (λ ones. (ok (us ++ (ones ++ others)), w')) (sym is_one)
      ∙ ap (λ more. (ok (us ++ more), w')) q2
      ∙ ap (λ vs. (ok vs, w')) q

  one_by_one-batch_from :
      Harmless registry
      → (rest group : List Action) (vs : List Value) (w w' : W) → All (Parallel registry) group
      → batch_from registry threads group rest w ≡ (ok vs, w')
      → one_by_one registry (group ++ rest) w ≡ (ok vs, w')
  one_by_one-batch_from harmless [] group vs w w' parallel ran =
      group_end harmless group [] w w' w' vs [] parallel (sym (batch_from-nil group w) ∙ ran)
        (one_by_one-nil registry w')
      ∙ ap (λ us. (ok us, w')) (append-nil vs)
  one_by_one-batch_from harmless (a ∷ rest) group vs w w' parallel ran =
      elim (Result-cases (tool_of registry a)) [
        | inr (e, is_e) ↦
            absurd (err-ok (ap (λ p. p.0) (sym (batch_from-refused group rest a e w is_e) ∙ ran)))
        | inl (t, is_t) ↦ elim (Bool-cases (is_parallel t)) [
          | inl p ↦
              ap (λ as_. one_by_one registry as_ w) (sym (append_assoc group (a ∷ []) rest))
              ∙ one_by_one-batch_from harmless rest (group ++ a ∷ []) vs w w'
                  (All-append (Parallel registry) group (a ∷ []) parallel ((t, is_t, p), tt))
                  (sym (batch_from-parallel group rest a t w is_t p) ∙ ran)
          | inr p ↦
              alone_last harmless a rest group vs w w' t parallel is_t
                (sym (batch_from-alone group rest a t w is_t p) ∙ ran)
                (one_by_one-batch_from harmless rest [])
        ]
      ]

  -- Where calls of tools that may run with others leave the world as it is, a batch that returns has done
  -- what the calls one by one do, with the same results, in whatever order the threads took them.
  pub one_by_one-execute_batch :
      ((a : Action) (t : Tool W) (w : W)
        → tool_of registry a ≡ ok t
        → is_parallel t ≡ true
        → (execute a registry w).1 ≡ w)
      → (actions : List Action) (vs : List Value) (w w' : W)
      → execute_batch registry threads actions w ≡ (ok vs, w')
      → one_by_one registry actions w ≡ (ok vs, w')
  unfolding execute_batch
  one_by_one-execute_batch harmless actions vs w w' ran =
      one_by_one-batch_from harmless actions [] vs w w' tt ran
