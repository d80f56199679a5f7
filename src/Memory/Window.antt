-- ===== src/Memory/Window.antt =====
-- What `AutoCompact.compact` (swaybot/memory.py) leaves in the stream.
use swaybot.Prelude.{
  ◌⊎◌, ℕ, zero, suc, ◌-◌, ◌≤◌, ◌<◌, ◌≡◌, ◌≢◌, refl, ap, sym, ◌∙◌, subst, String, Bool, true, false,
  not, Option, none, some, List, [], ◌∷◌, ◌++◌, append-nil, arith, ◌==◌, nat_eq, string_eq, length,
  take, drop, last_n, filter, filter-append, take-append-drop, length-last_n, Eq, Bool-cases,
  Option-cases, inl, inr,
}
use swaybot.Prelude.Float.{Floats}
use swaybot.Json.{Value}
use swaybot.Memory.Steps.{Step}
use swaybot.Memory.Store.{Store, add, add_to, is_duplicate, memories-save}
use swaybot.Memory.Merging.{add_to-cases}
use swaybot.Memory.Queries.{filter-filter}
use swaybot.Memory.Compaction.{
  AutoCompact, remove, remove_all, all_but, candidates, is_candidate, window, summary_of,
  summary_step, compact_steps, compact,
}

module _ {ℓ} {A : Type ℓ} ⦃e : Eq A⦄ (p : A → Bool) where
  head-filter : (xs : List A) (x : A) (rest : List A) → filter p xs ≡ x ∷ rest → p x ≡ true
  head-filter [] x rest h = cc
  head-filter (y ∷ ys) x rest h = elim (Bool-cases (p y)) [
    | inl t ↦ let h' : y ∷ filter p ys ≡ x ∷ rest = rw t at h in cc (t, h')
    | inr f ↦ head-filter ys x rest (rw f at h)
  ]

  remove-filter :
      (xs : List A) (x : A) (rest : List A)
      → filter p xs ≡ x ∷ rest
      → (filter p (remove x xs) ≡ rest)
        × (filter (λ a. not (p a)) (remove x xs) ≡ filter (λ a. not (p a)) xs)
  unfolding remove
  remove-filter [] x rest h = cc
  remove-filter (y ∷ ys) x rest h = elim (Bool-cases (y == x)) [
    | inl same ↦
        let y_is_x = (e.beq_iff y x).0 same in
        let t : p y ≡ true = rw y_is_x (head-filter (y ∷ ys) x rest h) in
        let h' : y ∷ filter p ys ≡ x ∷ rest = rw t at h in rw same (rw t (cc h', refl))
    | inr other ↦ elim (Bool-cases (p y)) [
      | inl t ↦
          let h' : y ∷ filter p ys ≡ x ∷ rest = rw t at h in
          let y_is_x : y ≡ x = cc h' in cc (other, (e.beq_iff y x).1 y_is_x)
      | inr f ↦
          let (a, b) = remove-filter ys x rest (rw f at h) in rw other (rw f (a, ap (◌∷◌ y) b))
    ]
  ]

  remove_all-filter :
      (gone xs rest : List A)
      → filter p xs ≡ gone ++ rest
      → (filter p (remove_all gone xs) ≡ rest)
        × (filter (λ a. not (p a)) (remove_all gone xs) ≡ filter (λ a. not (p a)) xs)
  unfolding remove_all
  remove_all-filter [] xs rest h = (h, refl)
  remove_all-filter (x ∷ gone) xs rest h =
      let (a, b) = remove-filter xs x (gone ++ rest) h in
      let (c, d) = remove_all-filter gone (remove x xs) rest a in (c, d ∙ b)

module _ {ℓ} {A : Type ℓ} where
  drop-length : (xs : List A) → drop (length xs) xs ≡ []
  drop-length [] = refl
  drop-length (x ∷ xs) = drop-length xs

  all_but-append : (keep : ℕ) (xs : List A) → all_but keep xs ++ last_n keep xs ≡ xs
  all_but-append zero xs =
      let whole : length xs - 0 ≡ length xs = omega arith in
      rw whole (rw (drop-length xs) (append-nil xs))
  all_but-append (suc k) xs =
      let cut : all_but (suc k) xs ≡ take (length xs - suc k) xs = ground arith in
      rw cut (take-append-drop (length xs - suc k) xs)

module _ {F : Type 0} where
  candidates-filter :
      (tag : Option String) (ms : List (Step F)) → candidates tag ms ≡ filter (is_candidate tag) ms
  unfolding candidates
  candidates-filter none ms = filter-filter _ _ ms
  candidates-filter (some tag) ms = filter-filter _ _ ms

  -- A window is smaller than the number of steps, and within `max_steps`.
  window-lt :
      (show : Value → String) (c : AutoCompact F) (steps : List (Step F)) (keep : ℕ)
      → window show c steps ≡ some keep
      → (keep < length steps) × (keep ≤ c.max_steps)
  unfolding window
  window-lt show c steps keep h = ground arith

  window-none :
      (show : Value → String) (c : AutoCompact F) (steps : List (Step F))
      → window show c steps ≡ none
      → length steps ≤ c.max_steps
  unfolding window
  window-none show c steps h = ground arith

  all_but-ne-nil : (keep : ℕ) (xs : List (Step F)) → keep < length xs → all_but keep xs ≢ []
  all_but-ne-nil keep xs h z =
      let whole : length (all_but keep xs ++ last_n keep xs) ≡ length xs =
        ap length (all_but-append keep xs) in
      let rest : length (last_n keep xs) ≡ length xs =
        subst (λ l. length (l ++ last_n keep xs) ≡ length xs) z whole in
      omega (arith, length-last_n keep xs)

module _ {F : Type 0} ⦃e : Eq (Step F)⦄ (fl : Floats F) (split : String → List String)
    (clean : String → String) (show : Value → String) (strip : String → String) (now : String) where
  -- The summary is no entry that `add` merges.
  add_to-summary :
      (text : String) (tag : Option String) (ms : List (Step F))
      → add_to fl split clean (summary_step fl now text tag) ms
        ≡ ms ++ summary_step fl now text tag ∷ []
  add_to-summary text tag ms =
      elim (add_to-cases fl split clean (summary_step fl now text tag) ms) [
        | inl (same, _) ↦ same
        | inr (_, it, _, _, _, d, _) ↦ unfold is_duplicate in ground arith
      ]

  not-candidate :
      (tag tag' : Option String) (text : String)
      → is_candidate tag (summary_step fl now text tag') ≡ false
  not-candidate none tag' text = refl
  not-candidate (some tag) tag' text = refl

  dropped :
      (tag : Option String) (text : String) (l : List (Step F))
      → l ++ filter (is_candidate tag) (summary_step fl now text tag ∷ []) ≡ l
  dropped tag text l = rw (not-candidate tag tag text) (append-nil l)

  stays :
      (tag : Option String) (text : String) (l : List (Step F))
      → l ++ filter (λ x. not (is_candidate tag x)) (summary_step fl now text tag ∷ [])
        ≡ l ++ summary_step fl now text tag ∷ []
  stays tag text l = rw (not-candidate tag tag text)

  memories-add :
      (m : Step F) (s : Store F)
      → (add fl split clean m s).memories ≡ add_to fl split clean m s.memories
  unfolding add
  memories-add m s = memories-save _

  unchanged :
      (c : AutoCompact F) (tag : Option String) (s : Store F)
      → window show c (candidates tag s.memories) ≡ none
      → (compact fl split clean show strip now c tag s).0 ≡ s
  unfolding compact
  unchanged c tag s w = rw (w, compact)

  -- What a compaction leaves: of the candidates the last `keep`, and of the other steps all, with one
  -- summary behind them.
  pub record Compacted (tag : Option String) (keep : ℕ) (s t : Store F) : Type 0 where
    pub kept : candidates tag t.memories ≡ last_n keep (candidates tag s.memories)
    pub text : String
    pub others :
        filter (λ m. not (is_candidate tag m)) t.memories
        ≡ filter (λ m. not (is_candidate tag m)) s.memories ++ summary_step fl now text tag ∷ []

  compact_steps-Compacted :
      (c : AutoCompact F) (tag : Option String) (keep : ℕ) (gone : List (Step F)) (s : Store F)
      → gone ≢ []
      → candidates tag s.memories ≡ gone ++ last_n keep (candidates tag s.memories)
      → Compacted tag keep s (compact_steps fl split clean show strip now c tag gone s).0
        × ((compact_steps fl split clean show strip now c tag gone s).1 ≡ true)
  unfolding compact_steps
  compact_steps-Compacted c tag keep [] s n h = absurd (n refl)
  compact_steps-Compacted c tag keep (m ∷ ms) s n h =
      let p = is_candidate tag in
      let text = summary_of show strip c (m ∷ ms) in
      let left = remove_all (m ∷ ms) s.memories in
      let (a, b) =
        remove_all-filter p (m ∷ ms) s.memories _ (sym (candidates-filter tag s.memories) ∙ h) in
      let after : (add fl split clean (summary_step fl now text tag)
            (record s { memories = left })).memories
          ≡ left ++ summary_step fl now text tag ∷ [] =
        memories-add (summary_step fl now text tag) (record s { memories = left })
        ∙ add_to-summary text tag left in
      (
        record {
          kept =
              candidates-filter tag _
              ∙ ap (filter p) after
              ∙ filter-append p left (summary_step fl now text tag ∷ [])
              ∙ dropped tag text (filter p left)
              ∙ a;
          text = text;
          others =
              ap (filter (λ x. not (p x))) after
              ∙ filter-append (λ x. not (p x)) left (summary_step fl now text tag ∷ [])
              ∙ ap (λ l. l ++ filter (λ x. not (p x)) (summary_step fl now text tag ∷ [])) b
              ∙ stays tag text (filter (λ x. not (p x)) s.memories);
        },
        refl,
      )

  -- With a window of `keep` steps, `compact` compacts: the last `keep` candidates stay in order, all
  -- other steps stay in order, and one long-term summary is put behind them.
  pub compact-Compacted :
      (c : AutoCompact F) (tag : Option String) (s : Store F) (keep : ℕ)
      → window show c (candidates tag s.memories) ≡ some keep
      → Compacted tag keep s (compact fl split clean show strip now c tag s).0
        × ((compact fl split clean show strip now c tag s).1 ≡ true)
  unfolding compact
  compact-Compacted c tag s keep w =
      let cs = candidates tag s.memories in
      rw (w, compact)
        (compact_steps-Compacted c tag keep (all_but keep cs) s
          (all_but-ne-nil keep cs (window-lt show c cs keep w).0) (sym (all_but-append keep cs)))

  -- After `compact` at most `max_steps` candidates are left, which are the short-term steps of the tag
  -- (of every tag where none is given) that are no task statement, and a call that reports no
  -- compaction has changed nothing.
  pub compact-bounded :
      (c : AutoCompact F) (tag : Option String) (s : Store F)
      → (length (candidates tag (compact fl split clean show strip now c tag s).0.memories)
          ≤ c.max_steps)
        × (((compact fl split clean show strip now c tag s).1 ≡ true)
            ⊎ ((compact fl split clean show strip now c tag s).0 ≡ s))
  compact-bounded c tag s =
      let cs = candidates tag s.memories in
      elim (Option-cases (window show c cs)) [
        | inl w ↦ let same = unchanged c tag s w in (rw same (window-none show c cs w), inr same)
        | inr (keep, w) ↦
            let (r, done) = compact-Compacted c tag s keep w in
            let bound = window-lt show c cs keep w in
            (rw r.kept (omega (arith, length-last_n keep cs, bound.1)), inl done)
      ]
