-- ===== src/Core/Dedup/Candidates/Far.antt =====
-- engraphy/core/dedup.py: candidates that are all less similar than the lower threshold.
use engraphy.Base.{
  ℕ, ◌≡◌, Bool, true, false, not, ◌||◌, none, List, [], ◌∷◌, ℤ, pos, leb, ltb_ℤ, sub_ℕ, keep,
  if◌then◌else◌, All, All-map, All-take, arith, Bool-cases, inl, inr,
}
use engraphy.Core.Store.{Db, Node, Session, ambient_scope_set}
use engraphy.Core.Dedup.Bands.{BandThresholds, Band, select_band, in_order}
use engraphy.Core.Dedup.Envelope.{Env, Incoming}
use engraphy.Core.Dedup.Candidates.{
  is_candidate, insert_nearest, order_by_distance, candidate_query, nearer, nearest, best_of,
}

-- The row is no candidate for the text, or less similar to it than the lower threshold.
abbrev pub IsFar : Env → Session → Incoming → BandThresholds → Db → Node → Type 0
IsFar env s inc bands db n =
    (not (is_candidate s inc.node_type (ambient_scope_set s (inc.scope ∷ []) db) none db n)
      || ltb_ℤ (sub_ℕ 1000000 (env.distance n.embedding inc.embedding)) bands.t_low)
    ≡ true

-- A candidate and its distance, below the threshold.
abbrev IsBelow : BandThresholds → ℕ × ℕ → Type 0
IsBelow bands row = ltb_ℤ (sub_ℕ 1000000 row.1) bands.t_low ≡ true

module _ (bands : BandThresholds) where
  All-insert_nearest :
      (row : ℕ × ℕ) (rows : List (ℕ × ℕ))
      → IsBelow bands row
      → All (IsBelow bands) rows
      → All (IsBelow bands) (insert_nearest row rows)
  unfolding insert_nearest
  All-insert_nearest row [] h hs = (h, tt)
  All-insert_nearest row (r ∷ rows) h (k, ks) =
      placed _ (h, (k, ks)) (k, All-insert_nearest row rows h ks)
    where
      placed :
          (b : Bool)
          → All (IsBelow bands) (row ∷ r ∷ rows)
          → All (IsBelow bands) (r ∷ insert_nearest row rows)
          → All (IsBelow bands) (if b then row ∷ r ∷ rows else r ∷ insert_nearest row rows)
      placed true first later = first
      placed false first later = later

  All-order_by_distance :
      (rows : List (ℕ × ℕ))
      → All (IsBelow bands) rows
      → All (IsBelow bands) (order_by_distance rows)
  unfolding order_by_distance
  All-order_by_distance [] h = tt
  All-order_by_distance (row ∷ rows) (h, hs) =
      All-insert_nearest row (order_by_distance rows) h (All-order_by_distance rows hs)

  nearer-IsBelow : (a b : ℕ × ℕ) → IsBelow bands a → IsBelow bands b → IsBelow bands (nearer a b)
  unfolding nearer
  nearer-IsBelow a b h k = chosen (leb a.1 b.1)
    where
      chosen : (t : Bool) → IsBelow bands (if t then a else b)
      chosen true = h
      chosen false = k

  nearest-IsBelow :
      (best : ℕ × ℕ) (rows : List (ℕ × ℕ))
      → IsBelow bands best
      → All (IsBelow bands) rows
      → IsBelow bands (nearest best rows)
  unfolding nearest
  nearest-IsBelow best [] h hs = h
  nearest-IsBelow best (row ∷ rows) h (k, ks) =
      nearest-IsBelow (nearer best row) rows (nearer-IsBelow best row h k) ks

  insert_band :
      (sim : ℤ)
      → in_order bands ≡ true
      → ltb_ℤ sim bands.t_low ≡ true
      → select_band sim bands ≡ Band.insert
  unfolding select_band
  insert_band sim o h = ground (arith, o, h)

  best_of-insert :
      (rows : List (ℕ × ℕ))
      → in_order bands ≡ true
      → All (IsBelow bands) rows
      → select_band (best_of rows).1 bands ≡ Band.insert
  unfolding best_of
  best_of-insert [] o h = insert_band (pos 0) o (ground (arith, o))
  best_of-insert (row ∷ rows) o (h, hs) = insert_band _ o (nearest-IsBelow row rows h hs)

  keep_far :
      (p q : Node → Bool) (ns : List Node)
      → All (λ n. (not (p n) || q n) ≡ true) ns
      → All (λ n. q n ≡ true) (keep p ns)
  keep_far p q [] h = tt
  keep_far p q (n ∷ ns) (h, hs) = elim (Bool-cases (p n)) [
    | inl taken ↦ rw taken (ground (arith, taken, h), keep_far p q ns hs)
    | inr left ↦ rw left (keep_far p q ns hs)
  ]

  pub candidate_query-insert :
      (env : Env) (s : Session) (inc : Incoming) (db : Db)
      → in_order bands ≡ true
      → All (IsFar env s inc bands db) db.nodes
      → select_band
          (best_of (candidate_query env s inc.node_type inc.scope inc.embedding none db)).1
          bands
        ≡ Band.insert
  unfolding candidate_query
  candidate_query-insert env s inc db o far = best_of-insert _ o (
      All-take (IsBelow bands) 5 _ (
        All-order_by_distance _ (
          All-map (IsBelow bands) (λ (n : Node). (n.id, env.distance n.embedding inc.embedding)) _
            (keep_far
              (is_candidate s inc.node_type (ambient_scope_set s (inc.scope ∷ []) db) none db)
              (λ n. ltb_ℤ (sub_ℕ 1000000 (env.distance n.embedding inc.embedding)) bands.t_low)
              db.nodes far))))
