-- ===== src/Core/Search.antt =====
-- engraphy/core/search.py and engraphy/core/rerank.py: hybrid search. Of the index behind a leg only
-- the order of its rows is used; rows at one distance or rank keep the order of the table.
pub mod Fuse
pub mod Collapse
pub mod Query
pub mod Legs
pub mod Found
pub mod Shown
pub mod Leaves
pub mod Answers
pub mod Blind
pub mod Unseen
use engraphy.Base.{
  ℕ, String, Bool, true, false, not, ◌&&◌, ◌||◌, Option, none, some, List, [], ◌∷◌, ◌++◌, map, ℤ,
  pos, negsuc, sub_ℕ, min, max, leb, ltb, leb_ℤ, length, take, keep, find_first, ◌==◌, contains,
  string_eq, nat_eq, if◌then◌else◌, sort_by,
}
use engraphy.Core.Json.{Fields, without}
use engraphy.Core.Tx.{Tx, key_error, pure, gets, or_raise, ◌>>=◌, ◌>>◌}
use engraphy.Core.Store.{
  Db, Session, Node, Edge, Status, Vector, active, status_eq, visible, readable_edge, is_addenda,
  log_audit,
}
use engraphy.Core.ScopeSet.{resolve_scope_set}
use engraphy.Core.Metrics.{counted}
use engraphy.Core.Recall.{bump_recall}
use engraphy.Core.Dedup.Bands.{for_profile}
use engraphy.Core.Dedup.Envelope.{Env}
use engraphy.Core.Dedup.Write.{reserved_node_types}
use engraphy.Core.Search.Fuse.{Floats, Scores, rrf_fuse}
use engraphy.Core.Search.Collapse.{near, collapse_by_pairs}

-- What a search takes from elsewhere: the embedding of a query, and PostgreSQL's full text match,
-- which ranks a node or finds nothing in it.
pub record Finder : Type 0 where
  pub env : Env
  pub floats : Floats
  pub embed_query : String → Vector
  pub rank : String → Node → Option ℕ

-- The arguments that the legs share.
pub record Filter : Type 0 where
  pub scope_set : List String
  pub types : List String
  pub include_inactive : Bool

-- SENTINEL_NODE_TYPE
abbrev pub sentinel_type : String
sentinel_type = "engraphy_sentinel"

-- `_status_and_type_clauses`, and the policy nodes_read; no types are all types.
unfoldable pub passes : Session → Filter → Db → Node → Bool
passes s f db n =
    (visible s db n && (n.space == s.space && contains f.scope_set n.scope))
    && (not (n.node_type == sentinel_type)
        && ((f.include_inactive || n.status == active)
            && (length f.types == 0 || contains f.types n.node_type)))

unfoldable pub by_distance : Finder → Vector → Node → Node → Bool
by_distance t query a b = leb (t.env.distance a.embedding query) (t.env.distance b.embedding query)

-- `_vector_leg`: ids with their similarities in millionths
unfoldable pub vector_leg : Finder → Session → Vector → Filter → Db → List (ℕ × ℤ)
unfolding passes by_distance sort_by
vector_leg t s query f db =
    map (λ n. (n.id, sub_ℕ 1000000 (t.env.distance n.embedding query)))
      (take 30 (sort_by (by_distance t query) (keep (passes s f db) db.nodes)))

unfoldable pub ranks : Finder → String → Node → Bool
ranks t query n = elim (t.rank query n) [ none ↦ false | some r ↦ true ]

higher : Option ℕ → Option ℕ → Bool
higher (some a) (some b) = leb b a
higher (some a) none = true
higher none b = false

-- `_lexical_leg`
unfoldable pub lexical_leg : Finder → Session → String → Filter → Db → List ℕ
unfolding passes ranks higher sort_by
lexical_leg t s query f db =
    map (λ n. n.id)
      (take 30 (
        sort_by (λ a b. higher (t.rank query a) (t.rank query b))
          (keep (λ n. passes s f db n && ranks t query n) db.nodes)))

-- `_hydrate_union`: the rows that the session sees among the ids
unfoldable pub hydrate_union : Session → List ℕ → Db → List Node
hydrate_union s ids db = keep (λ n. contains ids n.id && visible s db n) db.nodes

-- `_read_dedup_sim`
unfoldable pub read_dedup_sim : String → ℤ
unfolding for_profile
read_dedup_sim profile = if profile == "micro" then pos 970000 else (for_profile profile).t_high

-- The partners of a row that are near it and have a higher id.
unfoldable pub near_ones : Finder → ℤ → Node → List Node → List (ℕ × ℕ)
near_ones t threshold a ns =
    map (λ b. (a.id, b.id))
      (keep
        (λ b.
          ltb a.id b.id && leb_ℤ threshold (sub_ℕ 1000000 (t.env.distance a.embedding b.embedding)))
        ns)

unfoldable pub all_near : Finder → ℤ → List Node → List Node → List (ℕ × ℕ)
unfolding near_ones
all_near t threshold [] ns = []
all_near t threshold (a ∷ rest) ns = near_ones t threshold a ns ++ all_near t threshold rest ns

-- `_near_dup_pairs`
unfoldable pub near_dup_pairs : Finder → Session → ℤ → List ℕ → Db → List (ℕ × ℕ)
unfolding all_near hydrate_union
near_dup_pairs t s threshold ids db =
    if ltb (length ids) 2
    then []
    else let rows = keep (λ n. n.space == s.space) (hydrate_union s ids db) in
      all_near t threshold rows rows

-- `_declared_distinct_pairs`
unfoldable pub declared_distinct_pairs : Session → List ℕ → Db → List (ℕ × ℕ)
unfolding readable_edge
declared_distinct_pairs s ids db =
    if ltb (length ids) 2
    then []
    else map (λ e. (e.src, e.dst))
        (keep
          (λ e.
            readable_edge s db e
            && ((e.edge_type == "same_topic" || e.edge_type == "relates_to")
                && (contains ids e.src && contains ids e.dst)))
          db.edges)

-- The pairs that `_collapse_near_dupes` collapses: near, and not declared distinct.
unfoldable pub collapse_pairs : Finder → Session → String → List ℕ → Db → List (ℕ × ℕ)
collapse_pairs t s profile ids db =
    keep (λ p. not (near (declared_distinct_pairs s ids db) p.0 p.1))
      (near_dup_pairs t s (read_dedup_sim profile) ids db)

-- `_collapse_near_dupes`; with no pairs left the list is as it was.
unfoldable pub collapse_near_dupes : Finder → Session → String → Scores → Db → Scores
collapse_near_dupes t s profile fused db =
    collapse_by_pairs fused (collapse_pairs t s profile (map (λ e. e.0) fused) db)
