-- ===== src/Core/Search/Legs.antt =====
-- engraphy/core/search.py: where the ids of a fused list come from.
use engraphy.Base.{
  ℕ, ◌≤◌, String, ◌≡◌, refl, sym, ◌∙◌, ap, Bool, true, false, ◌&&◌, ◌||◌, Option, none, some, List,
  [], ◌∷◌, ◌++◌, map, ℤ, length, ◌==◌, contains, nat_eq, if◌then◌else◌, length-take, All, All-take,
  All-mono, ==_self, Pairwise, Pairwise-take, arith, Bool-cases, inl, inr, In, In-keep, In-take,
  In-sort_by, In-map, In-contains,
}
use mathlib.Core.Path.{subst}
use engraphy.Core.Store.{Db, Node, Session}
use engraphy.Core.Search.{
  Finder, Filter, passes, ranks, by_distance, vector_leg, lexical_leg, hydrate_union,
  collapse_near_dupes, collapse_pairs,
}
use engraphy.Core.Search.Query.{Query, above, legs, union_ids, fuse_legs, left_after, hybrid_fuse}
use engraphy.Core.Search.Fuse.{Scores}
use engraphy.Core.Search.Fuse.Laws.{holds, Distinct, rrf_fuse-Ranked}
use engraphy.Core.Search.Collapse.{Sublist, collapse_by_pairs-Collapsed}

-- A row of the table with the id, which the filter lets through.
abbrev pub Passing : Session → Filter → Db → ℕ → Type 0
Passing s f db id = (n : Node) × In n db.nodes × (n.id ≡ id) × (passes s f db n ≡ true)

In-above :
    (floor : Option ℤ) (hit : ℕ × ℤ) (hits : List (ℕ × ℤ)) → In hit (above floor hits) → In hit hits
unfolding above
In-above none hit hits h = h
In-above (some floor) hit hits h = (In-keep _ hit hits h).0

All-held : (out : Scores) → All (λ e. holds out e.0 ≡ true) out
All-held [] = tt
All-held (e ∷ out) =
    (ground (arith, ==_self e.0), All-mono out (λ d h. ground (arith, h)) (All-held out))

All-Sublist : (P : ℕ × ℕ → Type 0) (xs ys : Scores) → Sublist xs ys → All P ys → All P xs
All-Sublist P xs ys Sublist.nothing ps = tt
All-Sublist P _ _ (Sublist.same {xs = xs} {ys = ys} e h) (p, ps) = (p, All-Sublist P xs ys h ps)
All-Sublist P xs _ (Sublist.skip {ys = ys} e h) (p, ps) = All-Sublist P xs ys h ps

Pairwise-Sublist :
    (R : ℕ × ℕ → ℕ × ℕ → Type 0) (xs ys : Scores) → Sublist xs ys → Pairwise R ys → Pairwise R xs
Pairwise-Sublist R xs ys Sublist.nothing ps = tt
Pairwise-Sublist R _ _ (Sublist.same {xs = xs} {ys = ys} e h) (p, ps) =
    (All-Sublist (R e) xs ys h p, Pairwise-Sublist R xs ys h ps)
Pairwise-Sublist R xs _ (Sublist.skip {ys = ys} e h) (p, ps) = Pairwise-Sublist R xs ys h ps

contains-append :
    (xs ys : List ℕ) (j : ℕ) → contains (xs ++ ys) j ≡ (contains xs j || contains ys j)
contains-append [] ys j = refl
contains-append (x ∷ xs) ys j = ground (arith, contains-append xs ys j)

module _ (t : Finder) (s : Session) (q : Query) (db : Db) where
  -- An id of a leg, of a row that the filter lets through.
  abbrev pub FoundId : ℕ × ℕ → Type 0
  FoundId e = Passing s q.filter db e.0 × (contains (union_ids (legs t s q db)) e.0 ≡ true)

  vector_leg-Passing :
      (hit : ℕ × ℤ) → In hit (vector_leg t s q.vector q.filter db) → Passing s q.filter db hit.0
  unfolding vector_leg
  vector_leg-Passing hit h =
      let (n, m, e) = In-map _ hit _ h in
      let (there, passed) =
        In-keep (passes s q.filter db) n db.nodes
          (In-sort_by (by_distance t q.vector) n _ (In-take 30 n _ m)) in
      (n, there, ap (λ p. p.0) e, passed)

  lexical_leg-Passing :
      (id : ℕ) → In id (lexical_leg t s q.text q.filter db) → Passing s q.filter db id
  unfolding lexical_leg
  lexical_leg-Passing id h =
      let (n, m, e) = In-map _ id _ h in
      let (there, passed) =
        In-keep (λ n. passes s q.filter db n && ranks t q.text n) n db.nodes
          (In-sort_by _ n _ (In-take 30 n _ m)) in
      (n, there, e, ground (arith, passed))

  legs-Passing :
      (id : ℕ)
      → (contains (legs t s q db).1 id || contains (map (λ hit. hit.0) (legs t s q db).0) id) ≡ true
      → Passing s q.filter db id
  unfolding legs
  legs-Passing id h =
      let lexical = lexical_leg t s q.text q.filter db in
      let hits = above q.vector_floor (vector_leg t s q.vector q.filter db) in
      elim (Bool-cases (contains lexical id)) [
        | inl there ↦ lexical_leg-Passing id (In-contains id lexical there)
        | inr missing ↦
            let (hit, m, e) =
              In-map (λ hit. hit.0) id hits
                (In-contains id (map (λ hit. hit.0) hits) (ground (arith, h, missing))) in
            subst (Passing s q.filter db) e
              (vector_leg-Passing hit (In-above q.vector_floor hit _ m))
      ]

  fuse_legs-Passing :
      All FoundId (fuse_legs t s db (legs t s q db)) × Distinct (fuse_legs t s db (legs t s q db))
  unfolding fuse_legs union_ids
  fuse_legs-Passing =
      let hits = (legs t s q db).0 in
      let lexical = (legs t s q db).1 in
      let rows = hydrate_union s (union_ids (legs t s q db)) db in
      let ranked =
        rrf_fuse-Ranked t.floats (map (λ hit. hit.0) hits) lexical
          (map (λ n. (n.id, n.created_at)) rows) 60 in
      (
        All-mono _
            (λ e h.
              let there = sym (ranked.members e.0) ∙ h in
              (
                legs-Passing e.0 there,
                ground (arith, there, contains-append (map (λ hit. hit.0) hits) lexical e.0),
              ))
            (All-held _),
        ranked.distinct,
      )

  Good : Scores → Type 0
  Good xs = All FoundId xs × Distinct xs

  Good-if : (b : Bool) (xs ys : Scores) → Good xs → Good ys → Good (if b then xs else ys)
  Good-if true xs ys h k = h
  Good-if false xs ys h k = k

  left-Passing :
      (profile : String) → Good (left_after t s profile q db (fuse_legs t s db (legs t s q db)))
  unfolding left_after collapse_near_dupes Good
  left-Passing profile =
      let fused = fuse_legs t s db (legs t s q db) in
      let pairs = collapse_pairs t s profile (map (λ e. e.0) fused) db in
      let part = (collapse_by_pairs-Collapsed fused pairs).part in
      Good-if _ _ fused
        (
          All-Sublist _ _ fused part fuse_legs-Passing.0,
          Pairwise-Sublist _ _ fused part fuse_legs-Passing.1,
        )
        fuse_legs-Passing

  -- The ids that `hybrid_fuse` returns are of rows that the filter lets through, each once, and no
  -- more than the limit.
  pub hybrid_fuse-Passing :
      (profile : String)
      → All FoundId (hybrid_fuse t s profile q db).top
        × Distinct (hybrid_fuse t s profile q db).top
        × (length (hybrid_fuse t s profile q db).top ≤ q.limit)
  unfolding hybrid_fuse Good
  hybrid_fuse-Passing profile =
      let fused = fuse_legs t s db (legs t s q db) in
      let left = left_after t s profile q db fused in
      let (passing, distinct) = left-Passing profile in
      elim (Bool-cases (length (union_ids (legs t s q db)) == 0)) [
        | inl nothing ↦ rw nothing (tt, tt, omega arith)
        | inr something ↦ rw something (
          All-take _ q.limit left passing,
          Pairwise-take _ q.limit left distinct,
          omega (arith, length-take q.limit left),
        )
      ]
