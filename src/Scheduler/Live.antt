-- ===== src/Scheduler/Live.antt =====
-- Counting the tasks of the scheduler: those of a job, those cancelled, those under another name.
use swaybot.Prelude.{
  ℕ, zero, suc, ◌+◌, ◌≤◌, ◌≡◌, refl, arith, String, Bool, true, false, not, ◌&&◌, some, List, [],
  ◌∷◌, ◌++◌, map, get_elem?, if◌then◌else◌, ◌==◌, string_eq, nat_eq, eq_iff,
}
use swaybot.Scheduler.Engine.{Task, remove_at, cancel_named, cancel}

unfoldable pub tally : (Task → Bool) → List Task → ℕ
tally p [] = 0
tally p (t ∷ ts) = (if p t then 1 else 0) + tally p ts

abbrev pub is_at : ℕ → Task → Bool
is_at a t = t.address == a

abbrev pub is_doomed : ℕ → Task → Bool
is_doomed a t = t.address == a && t.cancelled

abbrev pub is_misnamed : String → ℕ → Task → Bool
is_misnamed name a t = t.address == a && not (t.name == name)

pub tally-nil : (p : Task → Bool) → tally p [] ≡ 0
unfolding tally
tally-nil p = refl

pub tally-append :
    (p : Task → Bool) (ts us : List Task) → tally p (ts ++ us) ≡ tally p ts + tally p us
unfolding tally
tally-append p [] us = omega arith
tally-append p (t ∷ ts) us = omega (arith, tally-append p ts us)

pub tally-snoc :
    (p : Task → Bool) (ts : List Task) (t : Task)
    → tally p (ts ++ t ∷ []) ≡ tally p ts + (if p t then 1 else 0)
unfolding tally
tally-snoc p ts t = omega (arith, tally-append p ts (t ∷ []))

pub tally-remove_at :
    (p : Task → Bool) (i : ℕ) (ts : List Task) (t : Task)
    → get_elem? ts i ≡ some t
    → tally p ts ≡ (if p t then 1 else 0) + tally p (remove_at i ts)
unfolding tally remove_at
tally-remove_at p i [] t found = cc
tally-remove_at p zero (u ∷ ts) t found = ground (arith, found)
tally-remove_at p (suc i) (u ∷ ts) t found = omega (arith, tally-remove_at p i ts t found)

pub tally-cancel_named :
    (a : ℕ) (name : String) (ts : List Task)
    → tally (is_at a) (cancel_named name ts) ≡ tally (is_at a) ts
unfolding tally cancel_named
tally-cancel_named a name [] = refl
tally-cancel_named a name (t ∷ ts) = ground (arith, tally-cancel_named a name ts)

pub misnamed-cancel_named :
    (known : String) (a : ℕ) (name : String) (ts : List Task)
    → tally (is_misnamed known a) (cancel_named name ts) ≡ tally (is_misnamed known a) ts
unfolding tally cancel_named
misnamed-cancel_named known a name [] = refl
misnamed-cancel_named known a name (t ∷ ts) = ground (arith, misnamed-cancel_named known a name ts)

-- Cancelling under another name spares the tasks of a job.
pub doomed-cancel_named :
    (known : String) (a : ℕ) (name : String) (ts : List Task)
    → (known == name) ≡ false
    → tally (is_misnamed known a) ts ≡ 0
    → tally (is_doomed a) (cancel_named name ts) ≡ tally (is_doomed a) ts
unfolding tally cancel_named
doomed-cancel_named known a name [] other named = refl
doomed-cancel_named known a name (t ∷ ts) other named = ground (
  arith,
  doomed-cancel_named known a name ts other (omega arith),
  eq_iff t.name name,
  eq_iff t.name known,
  eq_iff known name,
)

pub tally-cancel : (a : ℕ) (ts : List Task) → tally (is_at a) (map cancel ts) ≡ tally (is_at a) ts
unfolding tally
tally-cancel a [] = refl
tally-cancel a (t ∷ ts) = rw (tally-cancel a ts)

pub misnamed-cancel :
    (known : String) (a : ℕ) (ts : List Task)
    → tally (is_misnamed known a) (map cancel ts) ≡ tally (is_misnamed known a) ts
unfolding tally
misnamed-cancel known a [] = refl
misnamed-cancel known a (t ∷ ts) = rw (misnamed-cancel known a ts)

pub tally-le :
    (p q : Task → Bool) (ts : List Task)
    → ((t : Task) → p t ≡ true → q t ≡ true)
    → tally p ts ≤ tally q ts
unfolding tally
tally-le p q [] implies = omega arith
tally-le p q (t ∷ ts) implies = ground (arith, implies t, tally-le p q ts implies)
