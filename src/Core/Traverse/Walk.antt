-- ===== src/Core/Traverse/Walk.antt =====
-- engraphy/core/traverse.py: the rows of the recursive query against the graph that it walks.
use mathlib.Core.Path.{subst}
use engraphy.Base.{
  ℕ, zero, suc, ◌+◌, ◌≤◌, ◌<◌, ◌≡◌, refl, sym, ap, inl, inr, true, List, [], ◌∷◌, nat_eq, In,
  In-map, In-keep, In-append, append-In, arith, ltb→lt,
}
use engraphy.Core.Store.{Db, Session, Edge, readable_edge}
use engraphy.Core.Traverse.{
  Steps, Walked, other_end, crosses, first_row, first_rows, next_row, next_of, next_rows, rounds,
  walk,
}

-- The nodes of the graph that can be reached from the start in so many hops, a node as often as one
-- likes: each hop is over an edge that the session reads and that the arguments ask for, and ends at a
-- node that is not archived.
pub data Reaches (s : Session) (q : Steps) (db : Db) : ℕ → ℕ → Type 0 where
  at_start : Reaches s q db q.start 0
  hop :
      {n k : ℕ}
      → Reaches s q db n k
      → (e : Edge) → In e db.edges
      → crosses s q db n e ≡ true
      → Reaches s q db (other_end e n) (k + 1)

module _ (s : Session) (q : Steps) (db : Db) where
  next_rows-In :
      (w v : Walked) (level : List Walked)
      → In w level
      → In v (next_of s q db w)
      → In v (next_rows s q db level)
  unfolding next_rows
  next_rows-In w v [] h m = elim h [ ]
  next_rows-In w v (x ∷ level) (inl here) m =
      append-In v _ _ (inl (subst (λ y. In v (next_of s q db y)) (sym here) m))
  next_rows-In w v (x ∷ level) (inr there) m =
      append-In v _ _ (inr (next_rows-In w v level there m))

  pub In-next_rows :
      (v : Walked) (level : List Walked)
      → In v (next_rows s q db level)
      → (w : Walked) × In w level × In v (next_of s q db w)
  unfolding next_rows
  In-next_rows v [] h = elim h [ ]
  In-next_rows v (x ∷ level) h = elim (In-append v (next_of s q db x) (next_rows s q db level) h) [
    | inl here ↦ (x, inl refl, here)
    | inr there ↦ let (w, m, n) = In-next_rows v level there in (w, inr m, n)
  ]

  pub rounds-level :
      (n : ℕ) (w : Walked) (level : List Walked) → In w level → In w (rounds s q db n level)
  unfolding rounds
  rounds-level zero w level h = h
  rounds-level (suc n) w level h = append-In w _ _ (inl h)

  pub rounds-next :
      (n : ℕ) (w v : Walked) (level : List Walked)
      → In w (rounds s q db n level)
      → In v (next_of s q db w)
      → In v (rounds s q db (suc n) level)
  unfolding rounds
  rounds-next zero w v level h m = append-In v level _ (inr (next_rows-In w v level h m))
  rounds-next (suc n) w v level h m =
      elim (In-append w level (rounds s q db n (next_rows s q db level)) h) [
        | inl now ↦
            append-In v level _
              (inr (rounds-level (suc n) v (next_rows s q db level) (next_rows-In w v level now m)))
        | inr later ↦ append-In v level _ (inr (rounds-next n w v (next_rows s q db level) later m))
      ]

  rounds-more :
      (n : ℕ) (w : Walked) (level : List Walked)
      → In w (rounds s q db n level)
      → In w (rounds s q db (suc n) level)
  unfolding rounds
  rounds-more zero w level h = append-In w level _ (inl h)
  rounds-more (suc n) w level h =
      elim (In-append w level (rounds s q db n (next_rows s q db level)) h) [
        | inl now ↦ append-In w level _ (inl now)
        | inr later ↦ append-In w level _ (inr (rounds-more n w (next_rows s q db level) later))
      ]

  pub rounds-up :
      (k n m : ℕ) (w : Walked) (level : List Walked)
      → m ≡ k + n
      → In w (rounds s q db n level)
      → In w (rounds s q db m level)
  rounds-up zero n m w level e h =
      let same : n ≡ m = omega arith in subst (λ x. In w (rounds s q db x level)) same h
  rounds-up (suc k) n m w level e h =
      let same : suc (k + n) ≡ m = omega arith in
      subst (λ x. In w (rounds s q db x level)) same
        (rounds-more (k + n) w level (rounds-up k n (k + n) w level refl h))

  rounds-All :
      (P : Walked → Type 0)
      → ((w v : Walked) → P w → In v (next_of s q db w) → P v)
      → (n : ℕ) (w : Walked) (level : List Walked) → ((v : Walked) → In v level → P v)
      → In w (rounds s q db n level)
      → P w
  unfolding rounds
  rounds-All P closed zero w level all h = all w h
  rounds-All P closed (suc n) w level all h =
      elim (In-append w level (rounds s q db n (next_rows s q db level)) h) [
        | inl now ↦ all w now
        | inr later ↦
            rounds-All P closed n w (next_rows s q db level)
              (λ v m. let (x, here, from) = In-next_rows v level m in closed x v (all x here) from)
              later
      ]

  pub next_of-depth :
      (w v : Walked) → In v (next_of s q db w) → (v.depth ≡ w.depth + 1) × (w.depth < q.max_depth)
  unfolding next_of next_row
  next_of-depth w v m =
      let (e, kept, made) = In-map (next_row w) v _ m in
      let (here, passed) = In-keep _ e db.edges kept in
      (sym (ap (λ x. x.depth) made), ltb→lt w.depth q.max_depth (ground (arith, passed)))

  -- The query stops by itself: no row is deeper than `max_depth`.
  pub walk-depth : (w : Walked) → 1 ≤ q.max_depth → In w (walk s q db) → w.depth ≤ q.max_depth
  unfolding walk first_rows first_row
  walk-depth w some_depth h =
      rounds-All (λ x. x.depth ≤ q.max_depth)
        (λ x v below m. let (e, room) = next_of-depth x v m in omega arith) q.max_depth w
        (first_rows s q db)
        (λ v m.
          let (e, kept, made) = In-map (first_row q.start) v _ m in
          subst (λ x. x.depth ≤ q.max_depth) made some_depth)
        h

  pub walk-Reaches : (w : Walked) → In w (walk s q db) → Reaches s q db w.node w.depth
  unfolding walk first_rows first_row next_of next_row
  walk-Reaches w h =
      rounds-All (λ x. Reaches s q db x.node x.depth)
        (λ x v before m.
          let (e, kept, made) = In-map (next_row x) v _ m in
          let (here, passed) = In-keep _ e db.edges kept in
          subst (λ y. Reaches s q db y.node y.depth) made
            (hop before e here (ground (arith, passed))))
        q.max_depth w (first_rows s q db)
        (λ v m.
          let (e, kept, made) = In-map (first_row q.start) v _ m in
          let (here, passed) = In-keep _ e db.edges kept in
          subst (λ y. Reaches s q db y.node y.depth) made (hop at_start e here passed))
        h

  -- A row walks an edge of the table that the session reads.
  pub walk-edge :
      (w : Walked) → In w (walk s q db) → In w.edge db.edges × (readable_edge s db w.edge ≡ true)
  unfolding walk first_rows first_row next_of next_row crosses
  walk-edge w h =
      rounds-All (λ x. In x.edge db.edges × (readable_edge s db x.edge ≡ true))
        (λ x v before m.
          let (e, kept, made) = In-map (next_row x) v _ m in
          let (here, passed) = In-keep _ e db.edges kept in
          subst (λ y. In y.edge db.edges × (readable_edge s db y.edge ≡ true)) made
            (here, ground (arith, passed)))
        q.max_depth w (first_rows s q db)
        (λ v m.
          let (e, kept, made) = In-map (first_row q.start) v _ m in
          let (here, passed) = In-keep _ e db.edges kept in
          subst (λ y. In y.edge db.edges × (readable_edge s db y.edge ≡ true)) made
            (here, ground (arith, passed)))
        h
