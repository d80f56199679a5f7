-- ===== src/Memory/Merging.antt =====
-- What `MemoryStore.add` (swaybot/memory.py) does with an entry that restates another.
use swaybot.Prelude.{
  ◌≡◌, refl, ap, sym, subst, ◌∙◌, ◌⊎◌, inl, inr, String, Bool, true, false, none, some, List, [],
  ◌∷◌, ◌++◌, arith, ◌==◌, string_eq, eq_iff, length, length-append, any, All, All-append,
  Bool-cases, Option-cases,
}
use swaybot.Prelude.Float.{Floats, fmin}
use swaybot.Memory.Steps.{
  Step, Body, memory, task, action, observation, planning, reflection, body_credibility, content,
}
use swaybot.Memory.Tokens.{keywords}
use swaybot.Memory.Store.{
  update_first, corroborate, is_duplicate, add_to, is_question, is_settled, is_empty,
}

module _ {ℓ} {A : Type ℓ} (p : A → Bool) (f : A → A) where
  -- The first element that passes, with what stands before and behind it.
  record Found (xs ys : List A) : Type ℓ where
    before : List A
    it : A
    behind : List A
    was : xs ≡ before ++ it ∷ behind
    now : ys ≡ before ++ f it ∷ behind
    passes : p it ≡ true
    first : any p before ≡ false

  Found-cons : (x : A) {xs ys : List A} → p x ≡ false → Found xs ys → Found (x ∷ xs) (x ∷ ys)
  Found-cons x e r = record {
    before = x ∷ r.before;
    it = r.it;
    behind = r.behind;
    was = ap (◌∷◌ x) r.was;
    now = ap (◌∷◌ x) r.now;
    passes = r.passes;
    first = rw e r.first;
  }

  update_first-Found : (xs ys : List A) → update_first p f xs ≡ some ys → Found xs ys
  unfolding update_first
  update_first-Found [] ys h = cc
  update_first-Found (x ∷ xs) ys h = elim (Bool-cases (p x)) [
    | inl e ↦
        let h' : some (f x ∷ xs) ≡ some ys = rw e at h in
        record {
          before = [];
          it = x;
          behind = xs;
          was = refl;
          now = cc h';
          passes = e;
          first = refl;
        }
    | inr e ↦ elim (Option-cases (update_first p f xs)) [
      | inl n ↦ cc (rw (e, n) at h)
      | inr (zs, n) ↦
          let h' : some (x ∷ zs) ≡ some ys = rw (e, n) at h in
          let same : x ∷ zs ≡ ys = cc h' in
          subst (Found (x ∷ xs)) same (Found-cons x e (update_first-Found xs zs n))
    ]
  ]

  update_first-none : (xs : List A) → update_first p f xs ≡ none → any p xs ≡ false
  unfolding update_first
  update_first-none [] h = refl
  update_first-none (x ∷ xs) h = elim (Bool-cases (p x)) [
    | inl e ↦ cc (rw e at h)
    | inr e ↦ elim (Option-cases (update_first p f xs)) [
      | inl n ↦ rw e (update_first-none xs n)
      | inr (zs, n) ↦ cc (rw (e, n) at h)
    ]
  ]

  any-middle : (xs : List A) (x : A) (ys : List A) → p x ≡ true → any p (xs ++ x ∷ ys) ≡ true
  any-middle [] x ys h = rw h
  any-middle (w ∷ xs) x ys h = ground (arith, any-middle xs x ys h)

module _ {F : Type 0} (fl : Floats F) (split : String → List String) (clean : String → String) where
  -- The entries after an `add` are those before with the new one behind them, where it restates none
  -- of them, or with the first entry that it restates corroborated and nothing else changed.
  pub add_to-cases :
      (m : Step F) (ms : List (Step F))
      → (add_to fl split clean m ms ≡ ms ++ m ∷ []) × (any (is_duplicate split clean m) ms ≡ false)
        ⊎ ((before : List (Step F)) × (it : Step F) × (behind : List (Step F)) × (ms
              ≡ before ++ it ∷ behind)
            × (add_to fl split clean m ms ≡ before ++ corroborate fl it ∷ behind)
            × (is_duplicate split clean m it ≡ true)
            × (any (is_duplicate split clean m) before ≡ false))
  unfolding add_to
  add_to-cases m ms =
      elim (Option-cases (update_first (is_duplicate split clean m) (corroborate fl) ms)) [
        | inl n ↦
            inl
              (rw (n, add_to), update_first-none (is_duplicate split clean m) (corroborate fl) ms n)
        | inr (ys, n) ↦
            let r = update_first-Found (is_duplicate split clean m) (corroborate fl) ms ys n in
            inr (r.before, r.it, r.behind, r.was, rw (n, add_to) r.now, r.passes, r.first)
      ]

  content-corroborate : (m : Step F) → content (corroborate fl m) ≡ content m
  unfolding corroborate
  content-corroborate m = go m.body
    where
      go :
          (b : Body F)
          → content (corroborate fl (record m { body = b })) ≡ content (record m { body = b })
      go (memory x) = refl
      go (task _ _) = refl
      go (action _ _ _) = refl
      go (observation _ _) = refl
      go (planning _) = refl
      go (reflection _) = refl

  is_duplicate-corroborate :
      (m e : Step F) → is_duplicate split clean m (corroborate fl e) ≡ is_duplicate split clean m e
  unfolding is_duplicate
  is_duplicate-corroborate m e = rw content-corroborate (unfold corroborate in refl)

  -- An entry that can merge: long-term, not empty, and a question, a contradiction, or one of the
  -- settled kinds with a word that is no stop word.
  abbrev pub CanMerge : Step F → Type 0
  CanMerge m =
      (m.scope ≡ "long_term")
      × ((content m == "") ≡ false)
      × ((is_question m.kind ≡ true)
          ⊎ ((is_settled m.kind ≡ true) × (is_empty (keywords split clean (content m)) ≡ false)))

  is_duplicate_self : (m : Step F) → CanMerge m → is_duplicate split clean m m ≡ true
  unfolding is_duplicate
  is_duplicate_self m (s, c, k) =
      ground
        (arith, eq_iff m.scope "long_term", eq_iff m.kind m.kind, eq_iff (content m) (content m))

  any-add_to :
      (m : Step F) (ms : List (Step F))
      → CanMerge m
      → any (is_duplicate split clean m) (add_to fl split clean m ms) ≡ true
  any-add_to m ms h = elim (add_to-cases m ms) [
    | inl (e, _) ↦
        rw e
          (any-middle (is_duplicate split clean m) (corroborate fl) ms m [] (is_duplicate_self m h))
    | inr (before, it, behind, _, e, d, _) ↦ rw e (
        any-middle (is_duplicate split clean m) (corroborate fl) before (corroborate fl it) behind
          (is_duplicate-corroborate m it ∙ d))
  ]

  -- An entry that is added again, right after, is merged: the number of entries stays.
  pub length-add_to-add_to :
      (m : Step F) (ms : List (Step F))
      → CanMerge m
      → length (add_to fl split clean m (add_to fl split clean m ms))
        ≡ length (add_to fl split clean m ms)
  length-add_to-add_to m ms h = elim (add_to-cases m (add_to fl split clean m ms)) [
    | inl (_, absent) ↦ cc (absent, any-add_to m ms h)
    | inr (before, it, behind, was, now, _, _) ↦
        ap length now
        ∙ length-append before (corroborate fl it ∷ behind)
        ∙ sym (length-append before (it ∷ behind))
        ∙ sym (ap length was)
  ]

  -- The credibility, where there is one, is at most 1.0 (or NaN).
  abbrev pub IsBounded : Step F → Type 0
  IsBounded m = elim (body_credibility m.body) [
    | none ↦ Unit
    | some c ↦ fl.lt (fl.lit 10) c ≡ false
  ]

  fmin-bounded : (c : F) → fl.lt (fl.lit 10) (fmin fl (fl.lit 10) c) ≡ false
  fmin-bounded c = ground (arith, fl.lt_asymm c (fl.lit 10), fl.lt-lit 10 10)

  corroborate-IsBounded : (m : Step F) → IsBounded (corroborate fl m)
  unfolding corroborate
  corroborate-IsBounded m = go m.body
    where
      go : (b : Body F) → IsBounded (corroborate fl (record m { body = b }))
      go (memory x) = fmin-bounded _
      go (task _ _) = tt
      go (action _ _ _) = tt
      go (observation _ _) = tt
      go (planning _) = tt
      go (reflection x) = fmin-bounded _

  All-middle :
      (xs ys : List (Step F)) (x y : Step F)
      → IsBounded y
      → All IsBounded (xs ++ x ∷ ys)
      → All IsBounded (xs ++ y ∷ ys)
  All-middle [] ys x y b h = (b, h.1)
  All-middle (w ∷ xs) ys x y b h = (h.0, All-middle xs ys x y b h.1)

  -- Corroboration never lifts a credibility over 1.0: an `add` of a bounded entry keeps the entries
  -- bounded.
  pub add_to-IsBounded :
      (m : Step F) (ms : List (Step F))
      → IsBounded m
      → All IsBounded ms
      → All IsBounded (add_to fl split clean m ms)
  add_to-IsBounded m ms b h = elim (add_to-cases m ms) [
    | inl (e, _) ↦ rw e (All-append IsBounded ms (m ∷ []) h (b, tt))
    | inr (before, it, behind, was, now, _, _) ↦ rw now (
        All-middle before behind it (corroborate fl it) (corroborate-IsBounded it)
          (subst (All IsBounded) was h))
  ]
