-- ===== src/Prelude/Equality.antt =====
-- Python's `==` on numbers, texts and Booleans, as one operator over instances.
use Prim.Native.Nat.{ℕ, compare, Ordering}
use Prim.Native.String.{String}
use mathlib.Core.Path.{◌≡◌, refl}
use mathlib.Core.Logic.{◌↔◌, ◌≢◌, ◌⊎◌, inl, inr}
use mathlib.Core.Bool.{Bool, true, false, ◌||◌}
use swaybot.Prelude.Tests.{Bool-cases}
use mathlib.Core.List.{List, [], ◌∷◌}
use native.Mathlib.Omega.{arith}
use text.Mathlib.Text.{◌==◌ as str_eq}
use text.Mathlib.TextEquality.{eq_iff}

pub record Eq {ℓ} (A : Type ℓ) : Type ℓ where
  pub beq : A → A → Bool
  pub beq_iff : (x y : A) → (beq x y ≡ true) ↔ (x ≡ y)

infix 50 ◌==◌
abbrev pub ◌==◌ {ℓ} : {A : Type ℓ} ⦃same : Eq A⦄ → A → A → Bool
◌==◌ ⦃same⦄ = same.beq

abbrev nat_beq : ℕ → ℕ → Bool
nat_beq m n = elim (compare m n) [ Ordering.eq ↦ true | _ ↦ false ]

pub nat_beq_iff : (m n : ℕ) → (nat_beq m n ≡ true) ↔ (m ≡ n)
nat_beq_iff m n = ground arith

instance abbrev pub nat_eq : Eq ℕ
nat_eq = record { beq = nat_beq; beq_iff = nat_beq_iff }

instance abbrev pub string_eq : Eq String
string_eq = record { beq = str_eq; beq_iff = eq_iff }

module _ {ℓ} {A : Type ℓ} ⦃e : Eq A⦄ where
  -- `a in xs`
  abbrev pub elem : A → List A → Bool
  elem wanted [] = false
  elem wanted (x ∷ xs) = wanted == x || elem wanted xs

  pub ==_refl : (a : A) → (a == a) ≡ true
  ==_refl a = (e.beq_iff a a).1 refl

-- Tests of equalities that hold together agree.
pub ==-iff {ℓ κ} :
    {A : Type ℓ} {B : Type κ} ⦃e : Eq A⦄ ⦃f : Eq B⦄ (a b : A) (c d : B)
    → (a ≡ b) ↔ (c ≡ d)
    → (a == b) ≡ (c == d)
==-iff ⦃e⦄ ⦃f⦄ a b c d (there, back) = elim (Bool-cases (a == b)) [
  | inl same ↦
      let other : (c == d) ≡ true = (f.beq_iff c d).1 (there ((e.beq_iff a b).0 same)) in
      rw (same, other)
  | inr differ ↦ elim (Bool-cases (c == d)) [
    | inl same ↦ let h : (a == b) ≡ true = (e.beq_iff a b).1 (back ((f.beq_iff c d).0 same)) in cc h
    | inr other ↦ rw (differ, other)
  ]
]

-- An equality that is decided is a test.
abbrev pub is_same {ℓ} : {A : Type ℓ} → Dec A → Bool
is_same (yes p) = true
is_same (no n) = false

pub is_same_iff {ℓ} : {A : Type ℓ} (d : Dec A) → (is_same d ≡ true) ↔ A
is_same_iff (yes p) = (λ e. p, λ q. refl)
is_same_iff (no n) = (λ e. ground (arith, e), λ q. absurd (n q))

abbrev pub eq_of {ℓ} : {A : Type ℓ} → Discrete A → Eq A
eq_of discrete = record {
  beq = λ a b. is_same (discrete a b);
  beq_iff = λ a b. is_same_iff (discrete a b);
}

pub string_discrete : Discrete String
string_discrete s t = elim (Bool-cases (s == t)) [
  | inl e ↦ yes ((eq_iff s t).0 e)
  | inr e ↦ no (λ q. ground (arith, eq_iff s t, q, e))
]

-- A law of a text other than `k`, as a choice.
pub unless {ℓ} : (k j : String) {P : Type ℓ} → (j ≢ k → P) → (j ≡ k) ⊎ P
unless k j f = elim (Bool-cases (j == k)) [
  | inl e ↦ inl ((eq_iff j k).0 e)
  | inr e ↦ inr (f (λ q. ground (arith, eq_iff j k, q, e)))
]
