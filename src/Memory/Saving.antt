-- ===== src/Memory/Saving.antt =====
-- When the store of swaybot/memory.py writes, inside a batch and outside.
use swaybot.Prelude.{
  ℕ, ◌+◌, ◌≡◌, refl, ◌∙◌, String, some, List, [], ◌∷◌, arith, ◌<◌, ap, ◌++◌, ◌==◌, nat_eq,
  if◌then◌else◌,
}
use swaybot.Prelude.Float.{Floats}
use swaybot.Memory.Steps.{Step}
use swaybot.Memory.Store.{
  Store, save, memories-save, enter, leave, batch, prune, add_steps, add, add_to,
}

-- The operations that change the list of steps.
pub data Op (F : Type 0) : Type 0 where
  add_one : Step F → Op F
  add_many : List (Step F) → Op F
  prune_by : String → String → ℕ → Op F

module _ {F : Type 0} (fl : Floats F) (split : String → List String) (clean : String → String) where
  unfoldable pub apply : Op F → Store F → Store F
  apply (add_one m) s = add fl split clean m s
  apply (add_many ms) s = add_steps ms s
  apply (prune_by scope tag keep) s = (prune scope tag keep s).0

  unfoldable pub apply_all : List (Op F) → Store F → Store F
  unfolding apply
  apply_all [] s = s
  apply_all (op ∷ ops) s = apply_all ops (apply op s)

  apply-memories :
      (op : Op F) (s t : Store F)
      → s.memories ≡ t.memories
      → (apply op s).memories ≡ (apply op t).memories
  unfolding apply add add_steps prune
  apply-memories (add_one m) s t e = simp memories-save (ap (add_to fl split clean m) e)
  apply-memories (add_many ms) s t e = simp memories-save (ap (λ l. l ++ ms) e)
  apply-memories (prune_by scope tag keep) s t e = simp memories-save (rw e)

  apply_all-memories :
      (ops : List (Op F)) (s t : Store F)
      → s.memories ≡ t.memories
      → (apply_all ops s).memories ≡ (apply_all ops t).memories
  unfolding apply_all
  apply_all-memories [] s t e = e
  apply_all-memories (op ∷ ops) s t e =
      apply_all-memories ops (apply op s) (apply op t) (apply-memories op s t e)

  -- What stays the same while a batch is open.
  record IsQuiet (s t : Store F) : Type 0 where
    depth : t.batch_depth ≡ s.batch_depth
    disk : t.disk ≡ s.disk
    writes : t.writes ≡ s.writes

  apply-IsQuiet : (op : Op F) (s : Store F) → 0 < s.batch_depth → IsQuiet s (apply op s)
  unfolding apply add add_steps prune save
  apply-IsQuiet (add_one m) s h = ground arith
  apply-IsQuiet (add_many ms) s h = ground arith
  apply-IsQuiet (prune_by scope tag keep) s h = ground arith

  apply_all-IsQuiet :
      (ops : List (Op F)) (s : Store F) → 0 < s.batch_depth → IsQuiet s (apply_all ops s)
  unfolding apply_all
  apply_all-IsQuiet [] s h = record { depth = refl; disk = refl; writes = refl }
  apply_all-IsQuiet (op ∷ ops) s h =
      let q = apply-IsQuiet op s h in
      let r = apply_all-IsQuiet ops (apply op s) (rw q.depth h) in
      record { depth = r.depth ∙ q.depth; disk = r.disk ∙ q.disk; writes = r.writes ∙ q.writes }

  -- A batch round any operations, whatever its body answers (an exception too), leaves the steps that
  -- the operations leave without it, opens and closes one level, and writes nothing inside another
  -- batch; as the outermost one it writes once, and then the disk holds the steps.
  pub batch_lem :
      {A : Type 0} (answer : A) (ops : List (Op F)) (s : Store F)
      → let after = (batch (λ t. (answer, apply_all ops t)) s).1 in
        (after.memories ≡ (apply_all ops s).memories)
        × (after.batch_depth ≡ s.batch_depth)
        × (after.writes ≡ (if s.batch_depth == 0 then s.writes + 1 else s.writes))
        × (after.disk ≡ (if s.batch_depth == 0 then some (apply_all ops s).memories else s.disk))
  unfolding batch enter leave
  batch_lem answer ops s =
      let q = apply_all-IsQuiet ops (enter s) (unfold enter in omega arith) in
      let m = apply_all-memories ops (enter s) s (unfold enter in refl) in
      unfold save in ground (arith, q.depth, q.disk, q.writes, m)

  -- Outside a batch every operation writes once, and then the disk holds the steps.
  pub apply-saves :
      (op : Op F) (s : Store F)
      → s.batch_depth ≡ 0
      → ((apply op s).disk ≡ some (apply op s).memories) × ((apply op s).writes ≡ s.writes + 1)
  unfolding apply add add_steps prune save
  apply-saves (add_one m) s h = ground arith
  apply-saves (add_many ms) s h = ground arith
  apply-saves (prune_by scope tag keep) s h = ground arith
