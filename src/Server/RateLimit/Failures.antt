-- ===== src/Server/RateLimit/Failures.antt =====
-- The ban list: a source is banned exactly while ten or more of its failures lie in the window.
use engraphy.Base.{ℕ, ◌≤◌, String, List, [], ◌∷◌, ◌++◌, if◌then◌else◌, ◌==◌, string_eq}
use engraphy.Server.RateLimit.{FailureTracker, record_failure}
use engraphy.Server.RateLimit.Refinement.{Matches}

-- A failure: when, and from which source.
pub record Failure : Type 0 where
  pub now : ℕ
  pub key : String

pub record_all : List Failure → FailureTracker → FailureTracker
record_all [] f = f
record_all (x ∷ xs) f = record_all xs (record_failure f x.now x.key)

-- The times of a source's failures.
pub times_of : String → List Failure → List ℕ
times_of key [] = []
times_of key (x ∷ xs) = let rest = times_of key xs in if key == x.key then x.now ∷ rest else rest

-- In time order, from `first` to `last`.
abbrev pub InOrder : ℕ → List Failure → ℕ → Type 0
InOrder first [] last = first ≤ last
InOrder first (x ∷ xs) last = (first ≤ x.now) × InOrder x.now xs last

abbrev AllMatch : ℕ → FailureTracker → (String → List ℕ) → Type 0
AllMatch now f h = (k : String) → Matches now (f.fails k) (h k)

abbrev add : (String → List ℕ) → Failure → String → List ℕ
add h x k = if k == x.key then h k ++ x.now ∷ [] else h k
