-- ===== src/Core/Dedup/Bounds.antt =====
-- engraphy/core/dedup.py and engraphy/core/jaccard.py: bounds on what the pipeline computes.
use mathlib.Core.Path.{subst}
use engraphy.Base.{
  ℕ, suc, ◌+◌, ◌≤◌, String, ◌≡◌, refl, ◌∙◌, ap, Bool, true, false, not, ◌&&◌, none, List, [], ◌∷◌,
  ◌++◌, ℤ, pos, leb_ℤ, ltb_ℤ, length, length-append, All, if◌then◌else◌, arith,
}
use engraphy.Core.Tx.Keeps.{Keeps-gets}
use engraphy.Core.Tx.Leads.{
  Leads, Returns, Leads-pure, Leads-modify, Leads-bind, Leads-after, Leads-gets, Leads-require,
  Leads-from,
}
use engraphy.Core.Store.{Db, Edge, Session, Link, add_edge, has_edge, insert_edge}
use engraphy.Core.Store.Moves.{Keeps-unless_error}
use engraphy.Core.Dedup.Bands.{
  BandThresholds, Band, select_band, in_order, resolve_config, resolve_bands, resolve_floor,
}
use engraphy.Core.Dedup.Links.{attach_link, attach_links, tally}
use engraphy.Core.Dedup.Candidates.{nearest, nearer}
use engraphy.Core.Dedup.Moves.{Keeps-config_float}

abbrev pub rank : Band → ℕ
rank Band.insert = 0
rank Band.pending = 1
rank Band.merge = 2

-- A greater similarity never selects a lower band, whatever the thresholds are.
select_band-monotone :
    (a b : ℤ) (t : BandThresholds)
    → leb_ℤ a b ≡ true
    → rank (select_band a t) ≤ rank (select_band b t)
unfolding select_band
select_band-monotone a b t h = ground arith

Leads-resolve_bands :
    (s : Session) (profile : String) (db : Db)
    → Leads
        (λ t. t ≡ db)
        (resolve_bands s profile none)
        (λ bands t. (in_order bands ≡ true) × t ≡ db)
unfolding resolve_bands
Leads-resolve_bands s profile db = Leads-after (Keeps-config_float _ _ _) (λ h.
    Leads-after (Keeps-config_float _ _ _)
      (λ l. Leads-require _ _ _ (λ e. Leads-pure _ (λ t k. (e, k)))))

abbrev pub floor_ok : ℤ → Bool
floor_ok floor = ltb_ℤ (pos 0) floor && leb_ℤ floor (pos 1000000)

Leads-resolve_config :
    (s : Session) (profile : String) (db : Db)
    → Leads
        (λ t. t ≡ db)
        (resolve_config s profile none none)
        (λ (bands, floor) t. (in_order bands ≡ true) × (floor_ok floor ≡ true) × t ≡ db)
unfolding resolve_config resolve_floor
Leads-resolve_config s profile db = Leads-bind (Leads-resolve_bands s profile db) (λ bands.
    Leads-bind {R = λ floor t. (in_order bands ≡ true) × (floor_ok floor ≡ true) × t ≡ db}
      (Leads-after (Keeps-config_float _ _ _)
        (λ f. Leads-require _ _ _ (λ e. Leads-pure _ (λ t (o, k). (o, e, k)))))
      (λ floor. Leads-pure _ (λ t k. k)))

-- Configuration that is read without an override either raises or gives thresholds with
-- 0 < t_low <= t_high <= 1 and a resonance floor in (0, 1], and changes no table.
resolve_config-bounds :
    (s : Session) (profile : String) (db : Db)
    → Returns
        (λ (bands, floor) t. (in_order bands ≡ true) × (floor_ok floor ≡ true) × t ≡ db)
        (resolve_config s profile none none db)
resolve_config-bounds s profile db = (Leads-resolve_config s profile db).at db refl

nearer-least : (a b : ℕ × ℕ) → ((nearer a b).1 ≤ a.1) × ((nearer a b).1 ≤ b.1)
unfolding nearer
nearer-least a b = ground arith

-- The candidate that is taken from the first one and the others is at least as near as each of them.
nearest-least :
    (best : ℕ × ℕ) (rows : List (ℕ × ℕ))
    → ((nearest best rows).1 ≤ best.1) × All (λ row. (nearest best rows).1 ≤ row.1) rows
unfolding nearest
nearest-least best [] = (omega arith, tt)
nearest-least best (row ∷ rows) =
    let (h, hs) = nearest-least (nearer best row) rows in
    let (l, r) = nearer-least best row in (omega (arith, h, l), (omega (arith, h, r), hs))

added_edges : Bool → ℕ
added_edges true = 1
added_edges false = 0

length-add_edge :
    (e : Edge) (db : Db)
    → length (add_edge e db).edges
      ≡ length db.edges + added_edges (not (has_edge e.src e.dst e.edge_type db))
unfolding add_edge added_edges
length-add_edge e db = go (has_edge e.src e.dst e.edge_type db)
  where
    go :
        (b : Bool)
        → length (if b then db else record db { edges = db.edges ++ e ∷ [] }).edges
          ≡ length db.edges + added_edges (not b)
    go true = omega arith
    go false = omega (arith, length-append db.edges (e ∷ []))

Leads-insert_edge :
    (s : Session) (src dst : ℕ) (edge_type : String) (db : Db)
    → Leads
        (λ t. t ≡ db)
        (insert_edge s src dst edge_type)
        (λ b t. length t.edges ≡ length db.edges + added_edges b)
unfolding insert_edge
Leads-insert_edge s src dst edge_type db = Leads-gets _ _ (
    Leads-gets _ _ (
      Leads-gets _ _ (
        Leads-after (Keeps-unless_error _) (λ _. Leads-gets _ _ (
          Leads-bind
            (Leads-modify
              {Q = λ _ t.
                length t.edges
                ≡ length db.edges + added_edges (not (has_edge src dst edge_type db))}
              _ (λ t h. added t h))
            (λ _. Leads-pure _ (λ t h. h)))))))
  where
    row : Edge
    row = record { space = s.space; src = src; dst = dst; edge_type = edge_type }

    added :
        (t : Db)
        → t ≡ db
        → length (add_edge row t).edges
          ≡ length db.edges + added_edges (not (has_edge src dst edge_type db))
    added t h = ap (λ x. length (add_edge row x).edges) h ∙ length-add_edge row db

Leads-attach_link :
    (s : Session) (node : ℕ) (l : Link) (db : Db)
    → Leads
        (λ t. t ≡ db)
        (attach_link s node l)
        (λ b t. length t.edges ≡ length db.edges + added_edges b)
unfolding attach_link
Leads-attach_link s node l db =
    Leads-after (Keeps-gets _) (λ row. Leads-require _ _ _ (λ e. Leads-insert_edge s _ _ _ db))

Leads-attach_links :
    (s : Session) (node : ℕ) (links : List Link) (n : ℕ)
    → Leads
        (λ t. length t.edges ≡ n)
        (attach_links s node links)
        (λ (attached, skipped) t.
          (attached + skipped ≡ length links) × (length t.edges ≡ n + attached))
unfolding attach_links tally added_edges
Leads-attach_links s node [] n = Leads-pure _ (λ t h. (refl, omega (arith, h)))
Leads-attach_links s node (l ∷ links) n =
    Leads-bind
      (Leads-from (λ db h.
        subst
          (λ m.
            Leads (λ t. t ≡ db) (attach_link s node l) (λ b t. length t.edges ≡ m + added_edges b))
          h (Leads-attach_link s node l db)))
      (λ added.
        Leads-bind (Leads-attach_links s node links (n + added_edges added))
          (λ (attached, skipped). Leads-pure _ (λ t (c, d). counted added attached skipped t c d)))
  where
    counted :
        (b : Bool) (attached skipped : ℕ) (t : Db)
        → attached + skipped ≡ length links
        → length t.edges ≡ n + added_edges b + attached
        → ((tally b (attached, skipped)).0 + (tally b (attached, skipped)).1 ≡ suc (length links))
          × (length t.edges ≡ n + (tally b (attached, skipped)).0)
    counted true attached skipped t c d = (omega (arith, c), omega (arith, d))
    counted false attached skipped t c d = (omega (arith, c), omega (arith, d))

-- The counts that a write reports for its links add up to the links it was given, and the first is
-- the number of rows that edges has gained.
attach_links-counts :
    (s : Session) (node : ℕ) (links : List Link) (db : Db)
    → Returns
        (λ (attached, skipped) after.
          (attached + skipped ≡ length links) × (length after.edges ≡ length db.edges + attached))
        (attach_links s node links db)
attach_links-counts s node links db = (Leads-attach_links s node links (length db.edges)).at db refl
