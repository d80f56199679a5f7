-- ===== src/Prelude/Text.antt =====
-- Python's texts: slices count characters, and joining puts a separator between.
use Prim.Native.Nat.{ℕ, zero, suc, ◌≤◌}
use Prim.Native.Char.{code}
use Prim.Native.String
use mathlib.Core.Bool.{Bool, true, false, ◌&&◌, ◌||◌}
use swaybot.Prelude.Tests.{ltb}
use swaybot.Prelude.Equality.{◌==◌, nat_eq}
use Prim.Native.String.{String, count}
use mathlib.Core.List.{List, [], ◌∷◌}
use native.Mathlib.Omega.{arith}
use text.Mathlib.TextLemmas.{length-cons}

-- `s + t`
infixr 66 ◌⧺◌
abbrev pub ◌⧺◌ : String → String → String
s ⧺ t = String.◌++◌ s t

-- `s[:n]`
unfoldable pub cut : ℕ → String → String
cut zero s = String.[]
cut (suc n) String.[] = String.[]
cut (suc n) (String.◌∷◌ c s) = String.◌∷◌ c (cut n s)

-- `sep.join(texts)`
unfoldable pub join : String → List String → String
join sep [] = String.[]
join sep (t ∷ []) = t
join sep (t ∷ u ∷ ts) = t ⧺ sep ⧺ join sep (u ∷ ts)

-- `s.startswith(prefix)`
unfoldable pub starts_with : String → String → Bool
starts_with s String.[] = true
starts_with String.[] (String.◌∷◌ c prefix) = false
starts_with (String.◌∷◌ d s) (String.◌∷◌ c prefix) = code d == code c && starts_with s prefix

-- `s <= t`: by code points, from the left.
unfoldable pub text_leb : String → String → Bool
text_leb String.[] t = true
text_leb (String.◌∷◌ c s) String.[] = false
text_leb (String.◌∷◌ c s) (String.◌∷◌ d t) =
    ltb (code c) (code d) || code c == code d && text_leb s t

pub count-cut-le : (n : ℕ) (s : String) → count (cut n s) ≤ n
unfolding cut
count-cut-le zero s = omega arith
count-cut-le (suc n) String.[] = omega arith
count-cut-le (suc n) (String.◌∷◌ c s) = omega (arith, length-cons c (cut n s), count-cut-le n s)
