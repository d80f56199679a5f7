-- ===== src/Memory/Queries.antt =====
-- The readers of `MemoryStore` (swaybot/memory.py): `query`, `iter_short_term`, `query_relevant` and
-- `find_counterexamples`.
use swaybot.Prelude.{
  ◌⊎◌, ℕ, ◌≤◌, ◌≡◌, refl, ap, sym, ◌∙◌, String, Bool, true, false, not, ◌&&◌, ◌||◌, Option, none,
  some, List, [], ◌∷◌, arith, ◌==◌, nat_eq, string_eq, elem, length, last_n, length-last_n, filter,
  if◌then◌else◌,
}
use swaybot.Prelude.Float.{Floats}
use swaybot.Memory.Steps.{Step, surprise_or}
use swaybot.Memory.Store.{passes_scope, passes_tag}

-- `results[-limit:]`, which is the whole list for 0.
abbrev pub latest {ℓ} : {A : Type ℓ} → ℕ → List A → List A
latest limit xs = if limit == 0 then xs else last_n limit xs

module _ {F : Type 0} where
  abbrev pub passes_kind : String → Step F → Bool
  passes_kind kind m = kind == "" || m.kind == kind

  -- `if x: results = [m for m in results if p(m)]`
  abbrev pub narrow : Bool → (Step F → Bool) → List (Step F) → List (Step F)
  narrow given p ms = if given then filter p ms else ms

  -- `iter_short_term`
  unfoldable pub iter_short_term : Option String → List (Step F) → List (Step F)
  iter_short_term none ms = filter (λ m. m.scope == "short_term") ms
  iter_short_term (some tag) ms = filter (λ m. m.scope == "short_term" && elem tag m.tags) ms

module _ {F : Type 0} (fl : Floats F) where
  -- `getattr(m, "surprise", 0.0) >= least`; `none` is the default `0.0`, which filters nothing.
  abbrev pub passes_surprise : Option F → Step F → Bool
  passes_surprise none m = true
  passes_surprise (some least) m = fl.le least (surprise_or (fl.lit 0) m.body)

  abbrev pub narrow_surprise : Option F → List (Step F) → List (Step F)
  narrow_surprise none ms = ms
  narrow_surprise (some least) ms = filter (passes_surprise (some least)) ms

  -- `query(tag, kind, scope, min_surprise, limit)`
  unfoldable pub query : String → String → String → Option F → ℕ → List (Step F) → List (Step F)
  query tag kind scope least limit ms = latest limit (
      narrow_surprise least (
        narrow (not (tag == "")) (λ m. elem tag m.tags)
          (narrow (not (scope == "")) (λ m. m.scope == scope)
            (narrow (not (kind == "")) (λ m. m.kind == kind) ms))))

  -- All filters at once.
  abbrev pub passes_all : String → String → String → Option F → Step F → Bool
  passes_all tag kind scope least m =
      ((passes_kind kind m && passes_scope scope m) && passes_tag tag m) && passes_surprise least m

pub filter-filter {ℓ} :
    {A : Type ℓ} (p q : A → Bool) (xs : List A)
    → filter q (filter p xs) ≡ filter (λ x. p x && q x) xs
filter-filter p q [] = refl
filter-filter p q (x ∷ xs) = ground (arith, filter-filter p q xs)

filter-true {ℓ} : {A : Type ℓ} (xs : List A) → filter (λ _. true) xs ≡ xs
filter-true [] = refl
filter-true (x ∷ xs) = ap (◌∷◌ x) (filter-true xs)

narrow-filter :
    {F : Type 0} (b : Bool) (p : Step F → Bool) (ms : List (Step F))
    → narrow (not b) p ms ≡ filter (λ m. b || p m) ms
narrow-filter true p ms = sym (filter-true ms)
narrow-filter false p ms = refl

narrow-narrow :
    {F : Type 0} (b : Bool) (p q : Step F → Bool) (ms : List (Step F)) {ns : List (Step F)}
    → ns ≡ filter q ms
    → narrow (not b) p ns ≡ filter (λ m. q m && (b || p m)) ms
narrow-narrow b p q ms e =
    ap (narrow (not b) p) e ∙ narrow-filter b p (filter q ms) ∙ filter-filter q _ ms

module _ {F : Type 0} (fl : Floats F) where
  narrow_surprise-filter :
      (least : Option F) (ms : List (Step F))
      → narrow_surprise fl least ms ≡ filter (passes_surprise fl least) ms
  narrow_surprise-filter none ms = sym (filter-true ms)
  narrow_surprise-filter (some least) ms = refl

  -- `query` gives, in order, the last `limit` of the steps that pass every given filter (all of them
  -- for the limit 0), so at most `limit` unless that is 0.
  pub query-latest :
      (tag kind scope : String) (least : Option F) (limit : ℕ) (ms : List (Step F))
      → (query fl tag kind scope least limit ms
          ≡ latest limit (filter (passes_all fl tag kind scope least) ms))
        × ((limit ≡ 0) ⊎ (length (query fl tag kind scope least limit ms) ≤ limit))
  unfolding query
  query-latest tag kind scope least limit ms = (
    ap (latest limit) (
        narrow_surprise-filter least _
        ∙ ap (filter (passes_surprise fl least)) (
            narrow-narrow (tag == "") (λ m. elem tag m.tags)
              (λ m. passes_kind kind m && passes_scope scope m) ms
              (narrow-narrow (scope == "") (λ m. m.scope == scope) (passes_kind kind) ms
                (narrow-filter (kind == "") (λ m. m.kind == kind) ms)))
        ∙ filter-filter _ (passes_surprise fl least) ms),
    ground (
      arith,
      length-last_n limit (
          narrow_surprise fl least (
            narrow (not (tag == "")) (λ m. elem tag m.tags)
              (narrow (not (scope == "")) (λ m. m.scope == scope)
                (narrow (not (kind == "")) (λ m. m.kind == kind) ms)))),
    ),
  )
