-- ===== src/Core/Search/Fuse/Laws.antt =====
-- What a fused list holds, and in which order.
use engraphy.Base.{
  ℕ, suc, ◌+◌, ◌≡◌, refl, sym, ap, ◌∙◌, Pairwise-with, Bool, true, false, ◌||◌, none, List, [], ◌∷◌,
  map, any, ◌==◌, contains, nat_eq, if◌then◌else◌, All, Pairwise, sort_by, All-sort_by, any-sort_by,
  Pairwise-sort_by, sort_by-IsSorted, All-map, Pairwise-map, All-mono, arith, ==-eq, ==-ne,
  Bool-cases, inl, inr,
}
use mathlib.Core.Path.{subst}
use engraphy.Core.Search.Fuse.{
  Floats, Scores, add_score, score_leg, stamp, ranks_before, up_to, rounded, rrf_fuse,
}

-- `id in scores`
abbrev pub holds : Scores → ℕ → Bool
holds scores id = any (λ e. id == e.0) scores

abbrev pub Distinct : Scores → Type 0
Distinct = Pairwise (λ d e. ¬ (d.0 ≡ e.0))

-- What a leg adds to the score of an id, read off the leg: each place where the id stands counts
-- once, by its rank.
unfoldable pub leg_score : Floats → ℕ → ℕ → List ℕ → ℕ → ℕ → ℕ
leg_score f k rank [] id acc = acc
leg_score f k rank (x ∷ xs) id acc =
    leg_score f k (suc rank) xs id (if id == x then f.add acc (f.reciprocal (k + rank)) else acc)

ranks_before_total :
    (time : ℕ → ℕ) (a b : ℕ × ℕ) → ranks_before time a b ≡ false → ranks_before time b a ≡ true
unfolding ranks_before
ranks_before_total time (a, s) (b, t) h = ground arith

ranks_before_trans :
    (time : ℕ → ℕ) (a b c : ℕ × ℕ)
    → ranks_before time a b ≡ true
    → ranks_before time b c ≡ true
    → ranks_before time a c ≡ true
unfolding ranks_before
ranks_before_trans time (a, s) (b, t) (c, u) h k = ground arith

absent : (i : ℕ) (scores : Scores) → All (λ e. ¬ (i ≡ e.0)) scores → holds scores i ≡ false
absent i [] d = refl
absent i ((j, s) ∷ rest) (d, ds) = ground (arith, absent i rest ds)

module _ (f : Floats) (id x : ℕ) where
  holds-add_score :
      (j : ℕ) (scores : Scores) → holds (add_score f id x scores) j ≡ (j == id || holds scores j)
  unfolding add_score
  holds-add_score j [] = refl
  holds-add_score j ((i, s) ∷ rest) = ground (arith, holds-add_score j rest)

  -- What holds of the entries afterwards, by what held of them before.
  module _ (P Q : ℕ × ℕ → Type 0) (hit : (s : ℕ) → P (id, s) → Q (id, f.add s x))
      (miss : (i s : ℕ) → ¬ (i ≡ id) → P (i, s) → Q (i, s)) where
    All-miss : (scores : Scores) → holds scores id ≡ false → All P scores → All Q scores
    All-miss [] h ps = tt
    All-miss ((i, s) ∷ rest) h (p, ps) =
        (miss i s (ground arith) p, All-miss rest (ground arith) ps)

    -- An id stands once, so that what follows its entry is of other ids.
    All-add_score :
        (scores : Scores)
        → (holds scores id ≡ false → Q (id, f.add 0 x))
        → Distinct scores
        → All P scores
        → All Q (add_score f id x scores)
    unfolding add_score
    All-add_score [] fresh d ps = (fresh refl, tt)
    All-add_score ((i, s) ∷ rest) fresh (d, ds) (p, ps) = elim (Bool-cases (i == id)) [
      | inl same ↦
          let e : i ≡ id = ==-eq i id same in
          rw same (
            subst (λ j. P (j, s) → Q (j, f.add s x)) (sym e) (hit s) p,
            All-miss rest (subst (λ j. holds rest j ≡ false) e (absent i rest d)) ps,
          )
      | inr other ↦
          rw other (
            miss i s (==-ne i id other) p,
            All-add_score rest (λ h. fresh (ground (arith, h))) ds ps,
          )
    ]

  Distinct-add_score : (scores : Scores) → Distinct scores → Distinct (add_score f id x scores)
  unfolding add_score
  Distinct-add_score [] d = (tt, tt)
  Distinct-add_score ((i, s) ∷ rest) (d, ds) = elim (Bool-cases (i == id)) [
    | inl same ↦ rw same (d, ds)
    | inr other ↦ rw other (
      All-add_score (λ e. ¬ (i ≡ e.0)) (λ e. ¬ (i ≡ e.0)) (λ s h. h) (λ j s n h. h) rest
          (λ h. ==-ne i id other) ds d,
      Distinct-add_score rest ds,
    )
  ]

-- Each entry has the score of its id, and an id with no entry has none.
record Scored (acc : ℕ → ℕ) (scores : Scores) : Type 0 where
  entries : All (λ e. e.1 ≡ acc e.0) scores
  others : (id : ℕ) → holds scores id ≡ false → acc id ≡ 0
  distinct : Distinct scores

Scored-add_score :
    (f : Floats) (id x : ℕ) (acc : ℕ → ℕ) (scores : Scores)
    → Scored acc scores
    → Scored (λ j. if j == id then f.add (acc j) x else acc j) (add_score f id x scores)
Scored-add_score f id x acc scores h = record {
  entries =
      All-add_score f id x (λ e. e.1 ≡ acc e.0)
        (λ e. e.1 ≡ (if e.0 == id then f.add (acc e.0) x else acc e.0)) (λ s e. ground (arith, e))
        (λ i s n e. ground (arith, n, e)) scores (λ k. ground (arith, h.others id k)) h.distinct
        h.entries;
  others = λ j k. ground (arith, holds-add_score f id x j scores, h.others j);
  distinct = Distinct-add_score f id x scores h.distinct;
}

Scored-score_leg :
    (f : Floats) (k rank : ℕ) (ids : List ℕ) (acc : ℕ → ℕ) (scores : Scores)
    → Scored acc scores
    → Scored (λ j. leg_score f k rank ids j (acc j)) (score_leg f k rank ids scores)
unfolding score_leg leg_score
Scored-score_leg f k rank [] acc scores h = h
Scored-score_leg f k rank (id ∷ ids) acc scores h =
    Scored-score_leg f k (suc rank) ids _ _ (Scored-add_score f id _ acc scores h)

holds-score_leg :
    (f : Floats) (k rank : ℕ) (ids : List ℕ) (scores : Scores) (j : ℕ)
    → holds (score_leg f k rank ids scores) j ≡ (contains ids j || holds scores j)
unfolding score_leg
holds-score_leg f k rank [] scores j = refl
holds-score_leg f k rank (id ∷ ids) scores j = ground (
  arith,
  holds-score_leg f k (suc rank) ids (add_score f id (f.reciprocal (k + rank)) scores) j,
  holds-add_score f id (f.reciprocal (k + rank)) j scores,
)

-- The score of an id: its rank in each leg counts.
abbrev pub rrf_score : Floats → ℕ → List ℕ → List ℕ → ℕ → ℕ
rrf_score f k vector lexical id = leg_score f k 1 lexical id (leg_score f k 1 vector id 0)

-- A list of ids with their scores rounded: each id for which `among` holds stands in it once, in
-- the order of their scores before rounding, of times and of ids.
pub record Ranked (f : Floats) (time score : ℕ → ℕ) (among : ℕ → Bool) (out : Scores) : Type 0 where
  pub members : (id : ℕ) → holds out id ≡ among id
  pub distinct : Distinct out
  pub scores : All (λ e. e.1 ≡ f.round6 (score e.0)) out
  pub order : Pairwise (λ d e. ranks_before time (d.0, score d.0) (e.0, score e.0) ≡ true) out

holds-rounded :
    (f : Floats) (scores : Scores) (id : ℕ) → holds (map (rounded f) scores) id ≡ holds scores id
unfolding rounded
holds-rounded f [] id = refl
holds-rounded f ((i, s) ∷ rest) id = ground (arith, holds-rounded f rest id)

pub Ranked-sorted :
    (f : Floats) (time score : ℕ → ℕ) (scores : Scores)
    → Distinct scores
    → All (λ e. e.1 ≡ score e.0) scores
    → Ranked f time score (holds scores) (map (rounded f) (sort_by (ranks_before time) scores))
unfolding rounded
Ranked-sorted f time score scores d h =
    let before = ranks_before time in
    let sorted = sort_by before scores in
    let entries : All (λ e. e.1 ≡ score e.0) sorted =
      All-sort_by (λ e. e.1 ≡ score e.0) before scores h in
    record {
      members = λ id. holds-rounded f sorted id ∙ any-sort_by before _ scores;
      distinct =
          Pairwise-map (λ d e. ¬ (d.0 ≡ e.0)) (rounded f) sorted
            (Pairwise-sort_by before (λ d e. ¬ (d.0 ≡ e.0)) (λ d e n p. n (sym p)) scores d);
      scores = All-map _ (rounded f) sorted (All-mono sorted (λ e p. ap f.round6 p) entries);
      order = Pairwise-map _ (rounded f) sorted (
          Pairwise-with (λ e. e.1 ≡ score e.0) sorted
            (λ x y p q r.
              subst (λ s. before (x.0, s) (y.0, score y.0) ≡ true) p
                (subst (λ t. before x (y.0, t) ≡ true) q r))
            entries
            (sort_by-IsSorted before (ranks_before_total time) (ranks_before_trans time) scores));
    }

pub Ranked-among :
    {f : Floats} {time score : ℕ → ℕ} {a b : ℕ → Bool} {out : Scores}
    → ((id : ℕ) → a id ≡ b id)
    → Ranked f time score a out
    → Ranked f time score b out
Ranked-among h r = record {
  members = λ id. r.members id ∙ h id;
  distinct = r.distinct;
  scores = r.scores;
  order = r.order;
}

-- Fusion with no limit gives each id of either leg once and no other, with its reciprocal ranks in
-- both legs added up and rounded, in the order of the sums, then of creation times, latest first,
-- then of ids.
pub rrf_fuse-Ranked :
    (f : Floats) (vector lexical : List ℕ) (created_at : List (ℕ × ℕ)) (k : ℕ)
    → Ranked f
        (stamp created_at)
        (rrf_score f k vector lexical)
        (λ id. contains lexical id || contains vector id)
        (rrf_fuse f vector lexical created_at k none)
unfolding rrf_fuse up_to
rrf_fuse-Ranked f vector lexical created_at k =
    let first = score_leg f k 1 vector [] in
    let scored = Scored-score_leg f k 1 lexical _ first (
      Scored-score_leg f k 1 vector (λ id. 0) []
        (record { entries = tt; others = λ id h. refl; distinct = tt })) in
    Ranked-among
      (λ id.
        ground (arith, holds-score_leg f k 1 lexical first id, holds-score_leg f k 1 vector [] id))
      (Ranked-sorted f (stamp created_at) (rrf_score f k vector lexical) _ scored.distinct
        scored.entries)
