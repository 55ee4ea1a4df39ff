-- ===== src/Core/Search/Query.antt =====
-- engraphy/core/search.py: `hybrid_fuse` and `search`.
use engraphy.Base.{
  ℕ, ◌+◌, String, Bool, false, ◌&&◌, Option, none, some, List, [], ◌∷◌, ◌++◌, map, ℤ, pos, negsuc,
  min, max, ltb, leb_ℤ, length, take, keep, find_first, ◌==◌, contains, string_eq, nat_eq,
  if◌then◌else◌, sort_by,
}
use engraphy.Core.Json.{Fields, without, text_leb}
use engraphy.Core.Tx.{Tx, key_error, pure, gets, or_raise, ◌>>=◌, ◌>>◌}
use engraphy.Core.Store.{Db, Session, Node, Status, Vector, readable_edge, is_addenda, log_audit}
use engraphy.Core.ScopeSet.{resolve_scope_set}
use engraphy.Core.Metrics.{counted}
use engraphy.Core.Recall.{bump_recall}
use engraphy.Core.Search.{
  Finder, Filter, vector_leg, lexical_leg, hydrate_union, collapse_near_dupes,
}
use engraphy.Core.Search.Fuse.{Scores, rrf_fuse}

-- What `hybrid_fuse` returns.
pub record Fusion : Type 0 where
  pub top : Scores
  pub similarity : List (ℕ × ℤ)
  pub rows : List Node
  pub truncated : Bool

-- `[... if sim >= vector_floor]`
unfoldable pub above : Option ℤ → List (ℕ × ℤ) → List (ℕ × ℤ)
above none hits = hits
above (some floor) hits = keep (λ hit. leb_ℤ floor hit.1) hits

-- The arguments of a search that `hybrid_fuse` takes.
pub record Query : Type 0 where
  pub text : String
  pub vector : Vector
  pub filter : Filter
  pub limit : ℕ
  pub vector_floor : Option ℤ
  pub collapse_near_dupes : Bool

-- The ids of the two legs.
unfoldable pub legs : Finder → Session → Query → Db → List (ℕ × ℤ) × List ℕ
legs t s q db =
    (above q.vector_floor (vector_leg t s q.vector q.filter db), lexical_leg t s q.text q.filter db)

unfoldable pub union_ids : List (ℕ × ℤ) × List ℕ → List ℕ
union_ids (hits, lexical) = map (λ hit. hit.0) hits ++ lexical

-- The fused list, before its near duplicates leave it.
unfoldable pub fuse_legs : Finder → Session → Db → List (ℕ × ℤ) × List ℕ → Scores
fuse_legs t s db (hits, lexical) =
    let rows = hydrate_union s (union_ids (hits, lexical)) db in
    rrf_fuse t.floats (map (λ hit. hit.0) hits) lexical (map (λ n. (n.id, n.created_at)) rows) 60
      none

-- `if collapse_near_dupes and len(fused) > 1:`
unfoldable pub left_after : Finder → Session → String → Query → Db → Scores → Scores
left_after t s profile q db fused =
    if q.collapse_near_dupes && ltb 1 (length fused)
    then collapse_near_dupes t s profile fused db
    else fused

unfoldable pub hybrid_fuse : Finder → Session → String → Query → Db → Fusion
hybrid_fuse t s profile q db =
    let found = legs t s q db in
    let left = left_after t s profile q db (fuse_legs t s db found) in
    if length (union_ids found) == 0
    then record { top = []; similarity = []; rows = []; truncated = false }
    else record {
      top = take q.limit left;
      similarity = found.0;
      rows = hydrate_union s (union_ids found) db;
      truncated = ltb q.limit (length left);
    }

-- `_node_envelope`
pub record NodeItem : Type 0 where
  pub id : ℕ
  pub node_type : String
  pub scope : String
  pub title : String
  pub body : Option String
  pub attrs : Fields
  pub status : Status
  pub author : String
  pub created_at : ℕ

unfoldable pub node_envelope : String → Node → NodeItem
node_envelope detail n = record {
  id = n.id;
  node_type = n.node_type;
  scope = n.scope;
  title = n.title;
  body = if detail == "full" then some n.body else none;
  attrs = without is_addenda n.attrs;
  status = n.status;
  author = n.author;
  created_at = n.created_at;
}

pub record SearchItem : Type 0 where
  pub node : NodeItem
  pub score : ℕ
  pub similarity : Option ℤ
  pub edge_count : ℕ

pub record SearchReply : Type 0 where
  pub detail : String
  pub results : List SearchItem
  pub scopes_searched : List String
  pub truncated : Bool

-- `_edge_counts`, for one id: an edge counts at each of its ends.
unfoldable pub edge_count : Session → Db → ℕ → ℕ
edge_count s db id =
    length (keep (λ e. readable_edge s db e && e.src == id) db.edges)
    + length (keep (λ e. readable_edge s db e && e.dst == id) db.edges)

-- `similarity.get(id)`, rounded
unfoldable pub similarity_of : (ℤ → ℤ) → List (ℕ × ℤ) → ℕ → Option ℤ
similarity_of round [] id = none
similarity_of round ((i, sim) ∷ hits) id =
    let later = similarity_of round hits id in if i == id then some (round sim) else later

unfoldable pub search_item : Finder → Session → String → Db → Fusion → ℕ → Node → SearchItem
unfolding node_envelope edge_count similarity_of
search_item t s detail db f score n = record {
  node = node_envelope detail n;
  score = score;
  similarity = similarity_of t.env.round2 f.similarity n.id;
  edge_count = edge_count s db n.id;
}

-- `results.append(item)` for `node_map[id]`; nothing if the id has no row.
unfoldable pub add_item :
    {A : Type 0} → (ℕ → Node → A) → ℕ → Option Node → Option (List A) → Option (List A)
add_item item score none rest = none
add_item item score (some n) none = none
add_item item score (some n) (some items) = some (item score n ∷ items)

unfoldable pub hydrated : {A : Type 0} → (ℕ → Node → A) → List Node → Scores → Option (List A)
unfolding add_item
hydrated item rows [] = some []
hydrated item rows ((id, score) ∷ top) =
    add_item item score (find_first (λ n. n.id == id) rows) (hydrated item rows top)

-- The set of a list of scopes.
unfoldable pub unique : List String → List String
unique [] = []
unique (x ∷ xs) = let rest = unique xs in if contains xs x then rest else x ∷ rest

-- `max(1, min(limit, 25))`
unfoldable pub clamp_limit : ℤ → ℕ
clamp_limit (pos n) = max 1 (min n 25)
clamp_limit (negsuc n) = 1

-- The arguments of `search`.
pub record Search : Type 0 where
  pub scope : String
  pub text : String
  pub source_client : String
  pub types : List String
  pub limit : ℤ
  pub include_inactive : Bool
  pub detail : String
  pub collapse_near_dupes : Bool
  pub no_scope_all : Bool

unfoldable pub query_of : Finder → Search → List String → Query
unfolding clamp_limit
query_of t a scope_set = record {
  text = a.text;
  vector = t.embed_query a.text;
  filter = record { scope_set = scope_set; types = a.types; include_inactive = a.include_inactive };
  limit = clamp_limit a.limit;
  vector_floor = none;
  collapse_near_dupes = a.collapse_near_dupes;
}

-- `if scope_set:`
unfoldable pub fused_for : Finder → Session → String → Search → List String → Db → Fusion
unfolding hybrid_fuse query_of
fused_for t s profile a scope_set db =
    if length scope_set == 0
    then record { top = []; similarity = []; rows = []; truncated = false }
    else hybrid_fuse t s profile (query_of t a scope_set) db

-- The transaction of `search`
unfoldable pub search_tables : Finder → Session → String → Search → Tx Db SearchReply
unfolding fused_for hydrated search_item unique sort_by
search_tables t s profile a = do
  scope_set ← resolve_scope_set s a.scope a.no_scope_all
  f ← gets (fused_for t s profile a scope_set)
  items ← gets (λ db. hydrated (search_item t s a.detail db f) f.rows f.top)
  results ← or_raise items key_error
  bump_recall t.env.dates s (map (λ e. e.0) f.top)
  if a.scope == "all"
      then log_audit (record {
        space = s.space;
        principal = s.principal;
        client_name = a.source_client;
        action = "search";
        node = none;
      })
      else pure tt
  pure (record {
    detail = a.detail;
    results = results;
    scopes_searched = sort_by text_leb (unique scope_set);
    truncated = f.truncated;
  })

-- `search`, with its counters
unfoldable pub search_nodes : Finder → Session → String → Search → Tx Db SearchReply
unfolding search_tables
search_nodes t s profile a =
    counted s
      (λ r.
        ("questions_asked", 1)
        ∷ ("answered", if length r.results == 0 then 0 else 1)
        ∷ ("memory_reused", length r.results)
        ∷ [])
      (search_tables t s profile a)
