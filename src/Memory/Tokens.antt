-- ===== src/Memory/Tokens.antt =====
-- `_tokenize` and `_STOP_WORDS` of swaybot/memory.py, and the sets of words it compares. `str.split`
-- and the cleaning of a word (`lower`, `strip`) are parameters.
use swaybot.Prelude.{
  ℕ, ◌+◌, ◌*◌, String, Bool, not, List, [], ◌∷◌, map, leb, string_eq, elem, length, filter,
  if◌then◌else◌,
}

abbrev pub stop_words : List String
stop_words =
    "a" ∷ "an" ∷ "the" ∷ "is" ∷ "are" ∷ "was" ∷ "were" ∷ "be" ∷ "been" ∷ "being" ∷ "to" ∷ "of"
    ∷ "and" ∷ "or" ∷ "for" ∷ "in" ∷ "on" ∷ "at" ∷ "by" ∷ "with" ∷ "from" ∷ "as" ∷ "it" ∷ "its"
    ∷ "this" ∷ "that" ∷ "these" ∷ "those" ∷ "i" ∷ "you" ∷ "he" ∷ "she" ∷ "we" ∷ "they" ∷ "me"
    ∷ "him" ∷ "her" ∷ "us" ∷ "them" ∷ "my" ∷ "your" ∷ "his" ∷ "our" ∷ "their" ∷ "what" ∷ "which"
    ∷ "who" ∷ "when" ∷ "where" ∷ "why" ∷ "how" ∷ "all" ∷ "any" ∷ "both" ∷ "each" ∷ "few" ∷ "more"
    ∷ "most" ∷ "other" ∷ "some" ∷ "such" ∷ "no" ∷ "not" ∷ "only" ∷ "own" ∷ "same" ∷ "so" ∷ "than"
    ∷ "too" ∷ "very" ∷ "can" ∷ "will" ∷ "just" ∷ "should" ∷ "now" ∷ "do" ∷ "does" ∷ "did" ∷ []

-- `set(words)`, as the list of its members.
unfoldable pub to_set : List String → List String
to_set [] = []
to_set (w ∷ ws) = let rest = to_set ws in if elem w rest then rest else w ∷ rest

-- `a & b`, `a - b` and the size of `a | b`
abbrev pub both : List String → List String → List String
both a b = filter (λ w. elem w b) a

abbrev pub without : List String → List String → List String
without a b = filter (λ w. not (elem w b)) a

abbrev pub union_size : List String → List String → ℕ
union_size a b = length a + length (without b a)

-- `len(a & b) / len(a | b) >= 0.75`. The quotient of two sizes, rounded, lies on the side of 0.75 on
-- which the exact one lies.
unfoldable pub is_similar : List String → List String → Bool
is_similar a b = leb (3 * union_size a b) (4 * length (both a b))

module _ (split : String → List String) (clean : String → String) where
  abbrev pub tokenize : String → List String
  tokenize text = map clean (split text)

  -- `set(_tokenize(text)) - _STOP_WORDS`
  unfoldable pub keywords : String → List String
  unfolding to_set
  keywords text = without (to_set (tokenize text)) stop_words
