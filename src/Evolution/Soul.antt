-- ===== src/Evolution/Soul.antt =====
-- `SoulChannel` of swaybot/evolution.py. `T` is the instants; the two cutoffs are "now" less the days of
-- the settings, and `existing` is the text of the digest's file, if it is there.
use swaybot.Prelude.{
  ℕ, ◌≤◌, ◌≡◌, refl, sym, arith, String, Bool, true, false, not, ◌&&◌, Option, none, some, List, [],
  ◌∷◌, map, ltb, ◌==◌, string_eq, filter, any, length, if◌then◌else◌, if_induction, All, All-map,
  All-filter, ap, ◌∙◌, ◌≢◌,
}
use swaybot.Prelude.Text.{◌⧺◌, join}
use swaybot.Prelude.Float.{Floats}
use swaybot.Memory.Steps.{Step, body_credibility, content}
use swaybot.Memory.Store.{Store}
use swaybot.Memory.Queries.{query}

pub record Soul (F T : Type 0) : Type 0 where
  pub min_theories : ℕ
  pub min_credibility : F
  pub age_cutoff : T
  pub quiet_cutoff : T
  pub fromisoformat : String → Option T
  pub before : T → T → Bool
  pub two_decimals : F → String
  pub unified_diff : String → String → String

first_of : String → Option (String × String) → String
first_of other none = other
first_of other (some (first, second)) = first

none-some : {a : String × String} → ◌≢◌ {A = Option (String × String)} none (some a)
none-some e = cc e

module _ {F T : Type 0} (fl : Floats F) (soul : Soul F T) where
  -- `float(getattr(m, "credibility", 0.0))`
  abbrev pub credit : Step F → F
  credit m = elim (body_credibility m.body) [ none ↦ fl.lit 0 | some c ↦ c ]

  -- `_parse_iso(created) is not None and _parse_iso(created) <= cutoff`
  abbrev pub is_old : Option T → Bool
  is_old none = false
  is_old (some created) = not (soul.before soul.age_cutoff created)

  abbrev pub is_recent : Option T → Bool
  is_recent none = false
  is_recent (some created) = soul.before soul.quiet_cutoff created

  abbrev pub is_stable : Step F → Bool
  is_stable m = fl.le soul.min_credibility (credit m) && is_old (soul.fromisoformat m.created_at)

  -- `stable_theories`
  unfoldable pub stable_theories : Store F → List (Step F)
  stable_theories s = filter is_stable (query fl "" "theory" "long_term" none 200 s.memories)

  abbrev pub contradictions : Store F → List (Step F)
  contradictions s = query fl "" "contradiction" "long_term" none 200 s.memories

  -- `sorted(theories, key=credibility, reverse=True)`, which is stable.
  unfoldable pub insert_by_credit : Step F → List (Step F) → List (Step F)
  insert_by_credit m [] = m ∷ []
  insert_by_credit m (first ∷ rest) =
      let inserted = insert_by_credit m rest in
      if fl.lt (credit m) (credit first) then first ∷ inserted else m ∷ first ∷ rest

  unfoldable pub sort_by_credit : List (Step F) → List (Step F)
  unfolding insert_by_credit
  sort_by_credit [] = []
  sort_by_credit (m ∷ ms) = insert_by_credit m (sort_by_credit ms)

  abbrev pub theory_line : Step F → String
  theory_line m = "- (credibility " ⧺ soul.two_decimals (credit m) ⧺ ") " ⧺ content m

  -- `_render`
  unfoldable pub render : List (Step F) → String
  unfolding join sort_by_credit
  render theories =
      join "\n" (
        "# Soul digest"
        ∷ ""
        ∷ "> Auto-proposed digest of stable, high-credibility theories."
        ∷ "> Generated by the soul channel; every change is gated and diffed."
        ∷ ""
        ∷ map theory_line (sort_by_credit theories))
      ⧺ "\n"

  abbrev pub text_or_empty : Option String → String
  text_or_empty none = ""
  text_or_empty (some text) = text

  -- `propose`: the digest and its difference from the file.
  unfoldable pub propose : Store F → Option String → Option (String × String)
  propose s existing =
      let theories = stable_theories s in
      let digest = render theories in
      if ltb (length theories) soul.min_theories
      then none
      else if any (λ m. is_recent (soul.fromisoformat m.created_at)) (contradictions s)
      then none
      else if digest == text_or_empty existing
      then none
      else some (digest, soul.unified_diff (text_or_empty existing) digest)

  -- `apply`: what it answers and the file; `committed` is what git made of the change.
  unfoldable pub apply : String → Bool → Bool → Option String → String × Option String
  apply digest approve committed existing =
      if not approve then ("not approved; diff only", existing) else (
        "written" ⧺ (if committed then " + committed" else " (no git repo; unversioned)"),
        some digest,
      )

  -- A theory that may stand in the digest: credible enough, of a known time, and old enough.
  abbrev pub IsStable : Step F → Type 0
  IsStable m =
      (fl.le soul.min_credibility (credit m) ≡ true)
      × ((created : T) × (soul.fromisoformat m.created_at ≡ some created)
          × (soul.before soul.age_cutoff created ≡ false))

  -- A contradiction that is not newer than the quiet time.
  abbrev pub IsQuiet : Step F → Type 0
  IsQuiet m = is_recent (soul.fromisoformat m.created_at) ≡ false

  old-created :
      (o : Option T)
      → is_old o ≡ true
      → (created : T) × (o ≡ some created) × (soul.before soul.age_cutoff created ≡ false)
  old-created none old = ground (arith, old)
  old-created (some created) old = (created, refl, ground (arith, old))

  none-any :
      (ms : List (Step F))
      → any (λ m. is_recent (soul.fromisoformat m.created_at)) ms ≡ false
      → All IsQuiet ms
  none-any [] quiet = tt
  none-any (m ∷ ms) quiet = (ground (arith, quiet), none-any ms (ground (arith, quiet)))

  stable_theories-IsStable : (s : Store F) → All IsStable (stable_theories s)
  unfolding stable_theories
  stable_theories-IsStable s =
      All-map (stable_theories s)
        (λ m stable. (
          ground (arith, stable),
          old-created (soul.fromisoformat m.created_at) (ground (arith, stable)),
        ))
        (All-filter is_stable (query fl "" "theory" "long_term" none 200 s.memories))

  -- Enough theories, all stable, no recent contradiction, and a digest of them that is not in the file.
  abbrev pub Gated : Store F → Option String → String → Type 0
  Gated s existing digest =
      (soul.min_theories ≤ length (stable_theories s))
      × All IsStable (stable_theories s)
      × All IsQuiet (contradictions s)
      × (digest ≡ render (stable_theories s))
      × ((digest == text_or_empty existing) ≡ false)

  -- A digest is proposed only of enough theories, all stable, while no contradiction is recent, and only
  -- if it differs from the file.
  pub propose-Gated :
      (s : Store F) (existing : Option String) (digest diff : String)
      → propose s existing ≡ some (digest, diff)
      → Gated s existing digest
  unfolding propose first_of
  propose-Gated s existing digest diff =
      if_induction Proposes (ltb (length theories) soul.min_theories)
        (λ few e. absurd (none-some e))
        (λ enough.
          if_induction Proposes
            (any (λ m. is_recent (soul.fromisoformat m.created_at)) (contradictions s))
            (λ conflict e. absurd (none-some e))
            (λ quiet.
              if_induction Proposes (render theories == text_or_empty existing)
                {y = some
                  (render theories, soul.unified_diff (text_or_empty existing) (render theories))}
                (λ same e. absurd (none-some e))
                (λ differs e.
                  let is_digest : render theories ≡ digest = ap (first_of digest) e in
                  (
                    ground (arith, enough),
                    stable_theories-IsStable s,
                    none-any (contradictions s) quiet,
                    sym is_digest,
                    ap (λ d. d == text_or_empty existing) (sym is_digest) ∙ differs,
                  ))))
    where
      theories : List (Step F)
      theories = stable_theories s

      Proposes : Option (String × String) → Type 0
      Proposes result = result ≡ some (digest, diff) → Gated s existing digest
