-- ===== src/LoopGuards/Thresholds.antt =====
-- `_validate_thresholds` of swaybot/loop_guards.py. A negative threshold fails the same test as 0 and
-- 1, so thresholds are numbers from 0 on; Python's `set` of them is the list that is searched.
use mathlib.Core.List.{Perm, perm_middle}
use mathlib.Core.List.Perm
use swaybot.Prelude.{
  ℕ, ◌+◌, ◌≤◌, ◌≡◌, ◌≢◌, Bool, true, false, List, [], ◌∷◌, arith, ltb, leb, nat_eq, elem, Result,
  ok, err, subst, if◌then◌else◌, Bool-cases, inl, inr,
}

pub data ThresholdError : Type 0 where
  empty : ThresholdError
  invalid : ℕ → ThresholdError
  duplicates : ThresholdError

-- The `for` loop: the first threshold below 2.
unfoldable pub first_invalid : List ℕ → Result ThresholdError (Unit {0})
first_invalid [] = ok tt
first_invalid (t ∷ ts) = if ltb t 2 then err (invalid t) else first_invalid ts

-- `len(set(ts)) != len(ts)`
unfoldable pub has_duplicates : List ℕ → Bool
has_duplicates [] = false
has_duplicates (t ∷ ts) = if elem t ts then true else has_duplicates ts

unfoldable pub insert_sorted : ℕ → List ℕ → List ℕ
insert_sorted t [] = t ∷ []
insert_sorted t (u ∷ us) = if leb t u then t ∷ u ∷ us else u ∷ insert_sorted t us

-- `sorted(ts)`
unfoldable pub sorted : List ℕ → List ℕ
unfolding insert_sorted
sorted [] = []
sorted (t ∷ ts) = insert_sorted t (sorted ts)

unfoldable pub validate_thresholds : List ℕ → Result ThresholdError (List ℕ)
unfolding first_invalid has_duplicates sorted
validate_thresholds [] = err empty
validate_thresholds (t ∷ ts) = elim (first_invalid (t ∷ ts)) [
  | err e ↦ err e
  | ok _ ↦ if has_duplicates (t ∷ ts) then err duplicates else ok (sorted (t ∷ ts))
]

-- Each threshold is below the next, and the first is at least `lo`.
abbrev pub IsEscalating : ℕ → List ℕ → Type 0
IsEscalating lo [] = Unit
IsEscalating lo (t ∷ ts) = (lo ≤ t) × IsEscalating (t + 1) ts

insert_sorted-perm : (t : ℕ) (us : List ℕ) → Perm (insert_sorted t us) (t ∷ us)
unfolding insert_sorted
insert_sorted-perm t [] = Perm.refl (t ∷ [])
insert_sorted-perm t (u ∷ us) = elim (Bool-cases (leb t u)) [
  | inl le ↦ rw le (Perm.refl (t ∷ u ∷ us))
  | inr gt ↦ rw gt (Perm.trans (Perm.cons u (insert_sorted-perm t us)) (perm_middle (u ∷ []) us))
]

sorted-perm : (ts : List ℕ) → Perm (sorted ts) ts
unfolding sorted
sorted-perm [] = Perm.refl []
sorted-perm (t ∷ ts) = Perm.trans (insert_sorted-perm t (sorted ts)) (Perm.cons t (sorted-perm ts))

IsEscalating-weaken : (lo hi : ℕ) (ts : List ℕ) → lo ≤ hi → IsEscalating hi ts → IsEscalating lo ts
IsEscalating-weaken lo hi [] h e = tt
IsEscalating-weaken lo hi (t ∷ ts) h e = (omega arith, e.1)

insert_sorted-IsEscalating :
    (lo t : ℕ) (us : List ℕ)
    → lo ≤ t
    → elem t us ≡ false
    → IsEscalating lo us
    → IsEscalating lo (insert_sorted t us)
unfolding insert_sorted
insert_sorted-IsEscalating lo t [] h n e = (h, tt)
insert_sorted-IsEscalating lo t (u ∷ us) h n e = elim (Bool-cases (leb t u)) [
  | inl le ↦ rw le (h, (ground arith, e.1))
  | inr gt ↦ rw gt (e.0, insert_sorted-IsEscalating (u + 1) t us (ground arith) (ground arith) e.1)
]

elem-insert_sorted :
    (x t : ℕ) (us : List ℕ) → elem x (t ∷ us) ≡ false → elem x (insert_sorted t us) ≡ false
unfolding insert_sorted
elem-insert_sorted x t [] h = h
elem-insert_sorted x t (u ∷ us) h = ground (arith, elem-insert_sorted x t us)

elem-sorted : (x : ℕ) (ts : List ℕ) → elem x ts ≡ false → elem x (sorted ts) ≡ false
unfolding sorted
elem-sorted x [] h = h
elem-sorted x (t ∷ ts) h = elem-insert_sorted x t (sorted ts) (ground (arith, elem-sorted x ts))

sorted-IsEscalating :
    (ts : List ℕ)
    → first_invalid ts ≡ ok tt
    → has_duplicates ts ≡ false
    → IsEscalating 2 (sorted ts)
unfolding sorted first_invalid has_duplicates
sorted-IsEscalating [] v d = tt
sorted-IsEscalating (t ∷ ts) v d =
    insert_sorted-IsEscalating 2 t (sorted ts) (ground arith) (elem-sorted t ts (ground arith))
      (sorted-IsEscalating ts (ground arith) (ground arith))

-- What a successful call went through.
validate_inversion :
    (ts us : List ℕ)
    → validate_thresholds ts ≡ ok us
    → (first_invalid ts ≡ ok tt) × (has_duplicates ts ≡ false) × (us ≡ sorted ts) × (ts ≢ [])
unfolding validate_thresholds
validate_inversion [] us h = cc
validate_inversion (t ∷ ts) us h = ground arith

not_empty : {ts : List ℕ} (us : List ℕ) → Perm us ts → ts ≢ [] → us ≢ []
not_empty us p ne z = ne (Perm.eq-nil (subst (Perm _) z (Perm.symm p)))

-- Accepted thresholds come back as a strictly rising list of numbers from 2 on that holds what was
-- given, and is not empty.
pub validate_thresholds-IsEscalating :
    (ts us : List ℕ) → validate_thresholds ts ≡ ok us → IsEscalating 2 us × Perm us ts × (us ≢ [])
validate_thresholds-IsEscalating ts us h =
    let (v, d, e, ne) = validate_inversion ts us h in
    (
      rw e (sorted-IsEscalating ts v d),
      rw e (sorted-perm ts),
      not_empty us (rw e (sorted-perm ts)) ne,
    )
