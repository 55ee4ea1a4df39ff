-- ===== src/Core/Search/Fuse.antt =====
-- engraphy/core/search.py `rrf_fuse`: reciprocal rank fusion of two ranked legs.
-- A score is a double that is not negative, as its multiple of the least positive one, so the order
-- of scores is that of numbers. Python's operations on doubles are the record `Floats`. A creation
-- time that is missing counts as the empty text, which comes before every time.
pub mod Laws
pub mod Rerank
use engraphy.Base.{
  ℕ, suc, ◌+◌, Bool, ◌&&◌, ◌||◌, Option, none, some, List, [], ◌∷◌, map, ltb, leb, take, ◌==◌,
  nat_eq, if◌then◌else◌, insert_by, sort_by,
}

-- `a + b`, `1.0 / n` and `round(a, 6)`
pub record Floats : Type 0 where
  pub add : ℕ → ℕ → ℕ
  pub reciprocal : ℕ → ℕ
  pub round6 : ℕ → ℕ

-- A dictionary from ids to scores, and a list of ids with their scores.
abbrev pub Scores : Type 0
Scores = List (ℕ × ℕ)

-- `scores[id] = scores.get(id, 0.0) + x`
unfoldable pub add_score : Floats → ℕ → ℕ → Scores → Scores
add_score f id x [] = (id, f.add 0 x) ∷ []
add_score f id x ((i, s) ∷ rest) =
    let later = add_score f id x rest in if i == id then (i, f.add s x) ∷ rest else (i, s) ∷ later

-- `for rank, node_id in enumerate(leg, start=1)`, from a given rank
unfoldable pub score_leg : Floats → ℕ → ℕ → List ℕ → Scores → Scores
unfolding add_score
score_leg f k rank [] scores = scores
score_leg f k rank (id ∷ ids) scores =
    score_leg f k (suc rank) ids (add_score f id (f.reciprocal (k + rank)) scores)

-- `created_at.get(id, "")`; 0 is the empty text
unfoldable pub stamp : List (ℕ × ℕ) → ℕ → ℕ
stamp [] id = 0
stamp ((i, t) ∷ rest) id = let later = stamp rest id in if i == id then suc t else later

-- `_cmp(a, b) <= 0`: the higher score, then the later time, then the lower id
unfoldable pub ranks_before : (ℕ → ℕ) → ℕ × ℕ → ℕ × ℕ → Bool
ranks_before time (a, s) (b, t) =
    ltb t s || (s == t && (ltb (time b) (time a) || (time a == time b && leb a b)))

-- `ordered[:limit]`
unfoldable pub up_to : Option ℕ → Scores → Scores
up_to none xs = xs
up_to (some n) xs = take n xs

unfoldable pub rounded : Floats → ℕ × ℕ → ℕ × ℕ
rounded f (id, s) = (id, f.round6 s)

unfoldable pub rrf_fuse : Floats → List ℕ → List ℕ → List (ℕ × ℕ) → ℕ → Option ℕ → Scores
unfolding score_leg ranks_before stamp up_to rounded sort_by
rrf_fuse f vector_ranked lexical_ranked created_at k limit =
    let scores = score_leg f k 1 lexical_ranked (score_leg f k 1 vector_ranked []) in
    map (rounded f) (up_to limit (sort_by (ranks_before (stamp created_at)) scores))

-- `scores[id] = 0.0`
unfoldable pub zero_score : ℕ → Scores → Scores
zero_score id [] = (id, 0) ∷ []
zero_score id ((i, s) ∷ rest) =
    let later = zero_score id rest in if i == id then (i, 0) ∷ rest else (i, s) ∷ later

-- `{id: 0.0 for id in ids}`
unfoldable pub zero_scores : List ℕ → Scores → Scores
unfolding zero_score
zero_scores [] scores = scores
zero_scores (id ∷ ids) scores = zero_scores ids (zero_score id scores)

-- `if id in scores: scores[id] += x`
unfoldable pub raise_score : Floats → ℕ → ℕ → Scores → Scores
raise_score f id x = map (λ (i, s). (i, if i == id then f.add s x else s))

unfoldable pub raise_leg : Floats → ℕ → ℕ → List ℕ → Scores → Scores
unfolding raise_score
raise_leg f k rank [] scores = scores
raise_leg f k rank (id ∷ ids) scores =
    raise_leg f k (suc rank) ids (raise_score f id (f.reciprocal (k + rank)) scores)

unfoldable pub raise_legs : Floats → ℕ → List (List ℕ) → Scores → Scores
unfolding raise_leg
raise_legs f k [] scores = scores
raise_legs f k (leg ∷ legs) scores = raise_legs f k legs (raise_leg f k 1 leg scores)

-- engraphy/core/rerank.py `rerank_fuse`
unfoldable pub rerank_fuse : Floats → Scores → List (List ℕ) → List (ℕ × ℕ) → ℕ → Scores
unfolding zero_scores raise_legs ranks_before stamp rounded sort_by
rerank_fuse f base_fused [] created_at k = base_fused
rerank_fuse f base_fused (leg ∷ legs) created_at k =
    let base_ranked = map (λ e. e.0) base_fused in
    let scores = raise_legs f k (base_ranked ∷ leg ∷ legs) (zero_scores base_ranked []) in
    map (rounded f) (sort_by (ranks_before (stamp created_at)) scores)
