-- ===== src/Core/Jaccard.antt =====
-- engraphy/core/jaccard.py: whether an incoming body is new to a corpus. Unicode is a parameter:
-- the code points of a text in lower case, and which of them `str.isalnum` accepts.
use engraphy.Base.{
  ℕ, ◌+◌, ◌*◌, ◌-◌, String, Bool, true, false, not, ◌&&◌, ◌||◌, List, [], ◌∷◌, ◌++◌, length, keep,
  ltb, ◌==◌, Eq, contains, if◌then◌else◌,
}
use native.Mathlib.Decide.{ℕ_discrete}
pub mod Laws

pub record Unicode : Type 0 where
  pub lower : String → List ℕ
  pub is_alnum : ℕ → Bool

Token-discrete : Discrete (List ℕ)
Token-discrete = hlevel ℕ_discrete

instance unfoldable pub token_eq : Eq (List ℕ)
unfolding Token-discrete
token_eq = record { dec = Token-discrete }

flush : List ℕ → List (List ℕ) → List (List ℕ)
flush [] tokens = tokens
flush (c ∷ cs) tokens = tokens ++ (c ∷ cs) ∷ []

-- The loop over the characters: the current run and the tokens so far.
scan : (ℕ → Bool) → List ℕ → List ℕ → List (List ℕ) → List (List ℕ)
unfolding flush
scan alnum [] current tokens = flush current tokens
scan alnum (ch ∷ text) current tokens =
    scan alnum text (if alnum ch then current ++ ch ∷ [] else [])
      (if alnum ch then tokens else flush current tokens)

-- `set(tokens)`, as a list with no token twice
unfoldable pub distinct : List (List ℕ) → List (List ℕ)
distinct [] = []
distinct (t ∷ ts) = let rest = distinct ts in if contains rest t then rest else t ∷ rest

unfoldable pub tokenize : Unicode → String → List (List ℕ)
unfolding scan distinct
tokenize u text = distinct (scan u.is_alnum (u.lower text) [] [])

-- |A & B|
unfoldable pub common : List (List ℕ) → List (List ℕ) → ℕ
common a b = length (keep (contains b) a)

-- |A | B|
unfoldable pub union : List (List ℕ) → List (List ℕ) → ℕ
union a b = length a + length (keep (λ t. not (contains a t)) b)

-- `jaccard(...) < 0.8`, that is 5 |A & B| < 4 |A | B|, and false if both sets are empty
unfoldable pub novel_tokens : List (List ℕ) → List (List ℕ) → Bool
unfolding common union
novel_tokens [] [] = false
novel_tokens a b = ltb (5 * common a b) (4 * union a b)

unfoldable pub is_novel : Unicode → String → String → Bool
unfolding novel_tokens tokenize
is_novel u incoming corpus = novel_tokens (tokenize u incoming) (tokenize u corpus)
