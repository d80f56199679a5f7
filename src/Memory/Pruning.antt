-- ===== src/Memory/Pruning.antt =====
-- `MemoryStore.prune` (swaybot/memory.py) deletes by position, from the back: which steps it
-- removes.
use swaybot.Prelude.{
  ◌⊎◌, ◌<◌, ltb, ltb→lt, ℕ, zero, suc, ◌+◌, ◌-◌, ◌≤◌, ◌≡◌, refl, ap, ◌∙◌, String, Bool, not, List,
  [], ◌∷◌, arith, length, take, filter, Bool-cases, inl, inr, map, sym, length-take, if◌then◌else◌,
}
use native.Mathlib.Numerals.{add-one}
use swaybot.Memory.Store.{
  Store, positions, delete_at, delete_reversed, all_but_last, matches, prune, memories-save,
}

-- The list without its first `n` elements that pass.
unfoldable pub drop_first {ℓ} : {A : Type ℓ} → ℕ → (A → Bool) → List A → List A
drop_first zero p xs = xs
drop_first (suc n) p [] = []
drop_first (suc n) p (x ∷ xs) = if p x then drop_first n p xs else x ∷ drop_first (suc n) p xs

module _ {ℓ} {A : Type ℓ} (p : A → Bool) where
  positions-suc : (i : ℕ) (xs : List A) → positions p (i + 1) xs ≡ map suc (positions p i xs)
  unfolding positions
  positions-suc i [] = refl
  positions-suc i (x ∷ xs) = elim (Bool-cases (p x)) [
    | inl e ↦ rw e (rw (positions-suc (i + 1) xs) (rw (add-one i)))
    | inr e ↦ rw e (positions-suc (i + 1) xs)
  ]

  length-positions : (i : ℕ) (xs : List A) → length (positions p i xs) ≡ length (filter p xs)
  unfolding positions
  length-positions i [] = refl
  length-positions i (x ∷ xs) = ground (arith, length-positions (i + 1) xs)

  take-map : (n : ℕ) (is : List ℕ) → take n (map suc is) ≡ map suc (take n is)
  take-map zero is = refl
  take-map (suc n) [] = refl
  take-map (suc n) (i ∷ is) = ap (◌∷◌ (suc i)) (take-map n is)

  delete_reversed-suc :
      (x : A) (is : List ℕ) (xs : List A)
      → delete_reversed (map suc is) (x ∷ xs) ≡ x ∷ delete_reversed is xs
  unfolding delete_reversed
  delete_reversed-suc x [] xs = refl
  delete_reversed-suc x (i ∷ is) xs = ap (delete_at (suc i)) (delete_reversed-suc x is xs)

  first_deleted :
      (x : A) (is : List ℕ) (xs : List A)
      → delete_reversed (0 ∷ map suc is) (x ∷ xs) ≡ delete_reversed is xs
  unfolding delete_reversed
  first_deleted x is xs = ap (delete_at 0) (delete_reversed-suc x is xs)

  delete_reversed-positions :
      (n : ℕ) (xs : List A) → delete_reversed (take n (positions p 0 xs)) xs ≡ drop_first n p xs
  unfolding drop_first positions
  delete_reversed-positions zero xs = unfold delete_reversed in refl
  delete_reversed-positions (suc n) [] = unfold delete_reversed in refl
  delete_reversed-positions (suc n) (x ∷ xs) = elim (Bool-cases (p x)) [
    | inl e ↦ rw e (
        rw (positions-suc 0 xs, take-map n (positions p 0 xs))
          (first_deleted x (take n (positions p 0 xs)) xs ∙ delete_reversed-positions n xs))
    | inr e ↦ rw e (
        rw (positions-suc 0 xs, take-map (suc n) (positions p 0 xs))
          (delete_reversed-suc x (take (suc n) (positions p 0 xs)) xs
            ∙ ap (◌∷◌ x) (delete_reversed-positions (suc n) xs)))
  ]

  take_all : (is : List ℕ) → take (length is) is ≡ is
  take_all [] = refl
  take_all (i ∷ is) = ap (◌∷◌ i) (take_all is)

  drop_first_all :
      (n : ℕ) (xs : List A)
      → length (filter p xs) ≤ n
      → drop_first n p xs ≡ filter (λ x. not (p x)) xs
  unfolding drop_first
  drop_first_all zero [] h = refl
  drop_first_all (suc n) [] h = refl
  drop_first_all zero (x ∷ xs) h = ground (arith, drop_first_all zero xs)
  drop_first_all (suc n) (x ∷ xs) h = ground (arith, drop_first_all n xs, drop_first_all (suc n) xs)

  all_but_last-suc : (k : ℕ) (is : List ℕ) → all_but_last (suc k) is ≡ take (length is - suc k) is
  all_but_last-suc k is = ground arith

  pruned :
      (keep : ℕ) (xs : List A)
      → let excess = length (filter p xs) - keep in
        (length (all_but_last keep (positions p 0 xs)) ≡ excess)
        × (delete_reversed (all_but_last keep (positions p 0 xs)) xs ≡ drop_first excess p xs)
  pruned zero xs = (
    omega (arith, length-positions 0 xs),
    ap (λ is. delete_reversed is xs) (sym (take_all (positions p 0 xs)))
        ∙ delete_reversed-positions (length (positions p 0 xs)) xs
        ∙ ap (λ n. drop_first n p xs) (omega (arith, length-positions 0 xs)),
  )
  pruned (suc k) xs =
      let n = length (positions p 0 xs) - suc k in
      (
        ap length (all_but_last-suc k (positions p 0 xs))
            ∙ omega (arith, length-positions 0 xs, length-take n (positions p 0 xs)),
        ap (λ is. delete_reversed is xs) (all_but_last-suc k (positions p 0 xs))
            ∙ delete_reversed-positions n xs
            ∙ ap (λ n. drop_first n p xs) (omega (arith, length-positions 0 xs)),
      )

module _ {F : Type 0} (scope tag : String) (keep_last : ℕ) (s : Store F) where
  abbrev pub excess : ℕ
  excess = length (filter (matches scope tag) s.memories) - keep_last

  -- `prune` answers with the number of steps that match beyond `keep_last`, and removes just so many
  -- of them, the oldest ones, and no step that does not match; with `keep_last` 0 what is left is
  -- the steps that do not match.
  pub prune-drop_first :
      ((prune scope tag keep_last s).1 ≡ excess)
      × ((prune scope tag keep_last s).0.memories
          ≡ drop_first excess (matches scope tag) s.memories)
      × ((0 < keep_last)
          ⊎ ((prune scope tag keep_last s).0.memories
              ≡ filter (λ m. not (matches scope tag m)) s.memories))
  unfolding prune
  prune-drop_first =
      let (n, e) = pruned (matches scope tag) keep_last s.memories in
      let all = drop_first_all (matches scope tag) excess s.memories in
      (
        n,
        memories-save _ ∙ e,
        elim (Bool-cases (ltb 0 keep_last)) [
          | inl z ↦ inl (ltb→lt 0 keep_last z)
          | inr z ↦ inr (memories-save _ ∙ e ∙ all (ground (arith, z)))
        ],
      )
