-- ===== src/Core/Search/Fuse/Rerank.antt =====
-- What engraphy/core/rerank.py makes of a fused list.
use engraphy.Base.{
  ℕ, suc, ◌≡◌, refl, sym, ◌∙◌, Bool, false, ◌||◌, List, [], ◌∷◌, map, ◌==◌, contains, nat_eq,
  if◌then◌else◌, All, All-map, All-mono, Pairwise-map, arith, ==-eq, ==-ne, Bool-cases, inl, inr,
}
use mathlib.Core.Path.{subst}
use engraphy.Core.Search.Fuse.{
  Floats, Scores, stamp, zero_score, zero_scores, raise_score, raise_leg, raise_legs, rerank_fuse,
}
use engraphy.Core.Search.Fuse.Laws.{holds, Distinct, leg_score, Ranked, Ranked-sorted, Ranked-among}

-- The score of an id over several legs.
unfoldable pub legs_score : Floats → ℕ → List (List ℕ) → ℕ → ℕ → ℕ
unfolding leg_score
legs_score f k [] id acc = acc
legs_score f k (leg ∷ legs) id acc = legs_score f k legs id (leg_score f k 1 leg id acc)

-- The ids, each once, with their scores.
record Scored (among : ℕ → Bool) (acc : ℕ → ℕ) (scores : Scores) : Type 0 where
  members : (j : ℕ) → holds scores j ≡ among j
  distinct : Distinct scores
  entries : All (λ e. e.1 ≡ acc e.0) scores

holds-zero_score :
    (id : ℕ) (scores : Scores) (j : ℕ)
    → holds (zero_score id scores) j ≡ (j == id || holds scores j)
unfolding zero_score
holds-zero_score id [] j = refl
holds-zero_score id ((i, s) ∷ rest) j = ground (arith, holds-zero_score id rest j)

All-zero_score :
    (P : ℕ × ℕ → Type 0) (id : ℕ) (scores : Scores)
    → P (id, 0)
    → All P scores
    → All P (zero_score id scores)
unfolding zero_score
All-zero_score P id [] p ps = (p, tt)
All-zero_score P id ((i, s) ∷ rest) p (q, qs) = elim (Bool-cases (i == id)) [
  | inl same ↦ rw same (subst (λ j. P (j, 0)) (sym (==-eq i id same)) p, qs)
  | inr other ↦ rw other (q, All-zero_score P id rest p qs)
]

Distinct-zero_score : (id : ℕ) (scores : Scores) → Distinct scores → Distinct (zero_score id scores)
unfolding zero_score
Distinct-zero_score id [] d = (tt, tt)
Distinct-zero_score id ((i, s) ∷ rest) (d, ds) = elim (Bool-cases (i == id)) [
  | inl same ↦ rw same (d, ds)
  | inr other ↦ rw other (
    All-zero_score (λ e. ¬ (i ≡ e.0)) id rest (==-ne i id other) d,
    Distinct-zero_score id rest ds,
  )
]

Scored-zero_scores :
    (among : ℕ → Bool) (ids : List ℕ) (scores : Scores)
    → Scored among (λ j. 0) scores
    → Scored (λ j. contains ids j || among j) (λ j. 0) (zero_scores ids scores)
unfolding zero_scores
Scored-zero_scores among [] scores h = h
Scored-zero_scores among (id ∷ ids) scores h =
    let rest =
      Scored-zero_scores (λ j. j == id || among j) ids (zero_score id scores)
        (record {
          members = λ j. rw (holds-zero_score id scores j) (rw (h.members j) refl);
          distinct = Distinct-zero_score id scores h.distinct;
          entries = All-zero_score (λ e. e.1 ≡ 0) id scores refl h.entries;
        }) in
    record {
      members = λ j. ground (arith, rest.members j);
      distinct = rest.distinct;
      entries = rest.entries;
    }

holds-raise_score :
    (f : Floats) (id x : ℕ) (scores : Scores) (j : ℕ)
    → holds (raise_score f id x scores) j ≡ holds scores j
unfolding raise_score
holds-raise_score f id x [] j = refl
holds-raise_score f id x ((i, s) ∷ rest) j = ground (arith, holds-raise_score f id x rest j)

Scored-raise_score :
    (f : Floats) (id x : ℕ) {among : ℕ → Bool} {acc : ℕ → ℕ} (scores : Scores)
    → Scored among acc scores
    → Scored among (λ j. if j == id then f.add (acc j) x else acc j) (raise_score f id x scores)
unfolding raise_score
Scored-raise_score f id x {acc = acc} scores h = record {
  members = λ j. holds-raise_score f id x scores j ∙ h.members j;
  distinct = Pairwise-map (λ d e. ¬ (d.0 ≡ e.0)) _ scores h.distinct;
  entries = All-map _ _ scores (All-mono scores (λ e p. ground (arith, p)) h.entries);
}

Scored-raise_leg :
    (f : Floats) (k rank : ℕ) (ids : List ℕ) {among : ℕ → Bool} {acc : ℕ → ℕ} (scores : Scores)
    → Scored among acc scores
    → Scored among (λ j. leg_score f k rank ids j (acc j)) (raise_leg f k rank ids scores)
unfolding raise_leg leg_score
Scored-raise_leg f k rank [] scores h = h
Scored-raise_leg f k rank (id ∷ ids) scores h =
    Scored-raise_leg f k (suc rank) ids _ (Scored-raise_score f id _ scores h)

Scored-raise_legs :
    (f : Floats) (k : ℕ) (legs : List (List ℕ)) {among : ℕ → Bool} {acc : ℕ → ℕ} (scores : Scores)
    → Scored among acc scores
    → Scored among (λ j. legs_score f k legs j (acc j)) (raise_legs f k legs scores)
unfolding raise_legs legs_score
Scored-raise_legs f k [] scores h = h
Scored-raise_legs f k (leg ∷ legs) scores h =
    Scored-raise_legs f k legs _ (Scored-raise_leg f k 1 leg scores h)

contains-ids : (base : Scores) (j : ℕ) → contains (map (λ e. e.0) base) j ≡ holds base j
contains-ids [] j = refl
contains-ids (e ∷ base) j = rw (contains-ids base j) refl

-- With at least one signal, reranking gives exactly the ids of the fused list, each once, whatever
-- the signals rank: their scores are made anew from their ranks in the fused list and in each
-- signal, and order them.
rerank_fuse-Ranked :
    (f : Floats) (base : Scores) (signal : List ℕ) (signals : List (List ℕ))
    (created_at : List (ℕ × ℕ)) (k : ℕ)
    → Ranked f
        (stamp created_at)
        (λ id. legs_score f k (map (λ e. e.0) base ∷ signal ∷ signals) id 0)
        (holds base)
        (rerank_fuse f base (signal ∷ signals) created_at k)
unfolding rerank_fuse
rerank_fuse-Ranked f base signal signals created_at k =
    let ids = map (λ e. e.0) base in
    let scored = Scored-raise_legs f k (ids ∷ signal ∷ signals) _ (
      Scored-zero_scores (λ j. false) ids []
        (record { members = λ j. refl; distinct = tt; entries = tt })) in
    Ranked-among (λ id. ground (arith, scored.members id, contains-ids base id))
      (Ranked-sorted f (stamp created_at) _ _ scored.distinct scored.entries)
