-- ===== src/Core/Dedup/Candidates.antt =====
-- engraphy/core/dedup.py: the candidate query, the canonical chain, and the texts of a cluster.
pub mod Far
use engraphy.Base.{
  ℕ, zero, suc, String, ◌<>◌, Bool, true, ◌&&◌, ◌||◌, not, Option, none, some, List, [], ◌∷◌, map,
  ℤ, pos, sub_ℕ, leb, keep, take, ◌==◌, contains, string_eq, nat_eq, if◌then◌else◌,
}
use engraphy.Core.Json.{Json, str, arr, obj, Items, nil, cons, Fields, get}
use engraphy.Core.Tx.{Tx, type_error, canonical_chain, pure, raise, gets, or_raise, ◌>>=◌}
use engraphy.Core.Store.{
  Db, Session, Node, Edge, Candidate, Vector, active, merged, status_eq, ambient_scope_set,
  select_node, visible,
}
use engraphy.Core.Dedup.Envelope.{Env}

insert_nearest : ℕ × ℕ → List (ℕ × ℕ) → List (ℕ × ℕ)
insert_nearest (id, d) [] = (id, d) ∷ []
insert_nearest (id, d) ((j, e) ∷ rows) =
    let rest = insert_nearest (id, d) rows in
    if leb d e then (id, d) ∷ (j, e) ∷ rows else (j, e) ∷ rest

-- `ORDER BY distance`; rows at one distance keep the order of the table.
order_by_distance : List (ℕ × ℕ) → List (ℕ × ℕ)
unfolding insert_nearest
order_by_distance [] = []
order_by_distance (row ∷ rows) = insert_nearest row (order_by_distance rows)

abbrev differs : Option ℕ → ℕ → Bool
differs none id = true
differs (some old) id = not (id == old)

-- The WHERE of the candidate query
unfoldable pub is_candidate : Session → String → List String → Option ℕ → Db → Node → Bool
is_candidate s node_type scopes exclude_id db n =
    (n.node_type == node_type && (n.status == active && contains scopes n.scope))
    && (differs exclude_id n.id && visible s db n)

-- The candidate query: the five nearest rows and their distances
unfoldable pub candidate_query :
    Env → Session → String → String → Vector → Option ℕ → Db → List (ℕ × ℕ)
unfolding order_by_distance is_candidate
candidate_query env s node_type scope embedding exclude_id db =
    let scopes = ambient_scope_set s (scope ∷ []) db in
    let rows = keep (is_candidate s node_type scopes exclude_id db) db.nodes in
    take 5 (order_by_distance (map (λ n. (n.id, env.distance n.embedding embedding)) rows))

unfoldable pub nearer : ℕ × ℕ → ℕ × ℕ → ℕ × ℕ
nearer a b = if leb a.1 b.1 then a else b

-- `min(candidates, key=...)`, the first of the least
unfoldable pub nearest : ℕ × ℕ → List (ℕ × ℕ) → ℕ × ℕ
nearest best [] = best
nearest best (row ∷ rows) = nearest (nearer best row) rows

-- `best_candidate_id` and `max_similarity`
unfoldable pub best_of : List (ℕ × ℕ) → Option ℕ × ℤ
unfolding nearest
best_of [] = (none, pos 0)
best_of (row ∷ rows) = let (id, d) = nearest row rows in (some id, sub_ℕ 1000000 d)

-- `_candidate_rows`
unfoldable pub candidate_rows : Env → Session → List (ℕ × ℕ) → Tx Db (List Candidate)
candidate_rows env s [] = pure []
candidate_rows env s ((id, d) ∷ rows) = do
  row ← gets (select_node s id)
  n ← or_raise row type_error
  rest ← candidate_rows env s rows
  pure (
      record { id = id; title = n.title; body = n.body; similarity = env.round2 (sub_ℕ 1000000 d) }
      ∷ rest)

-- `status != "merged" or canonical_id is None`: the next node of the chain, if there is one
unfoldable pub next_canonical : Node → Option ℕ
next_canonical n = if n.status == merged then n.canonical else none

unfoldable pub chase : Session → ℕ → ℕ → Tx Db ℕ
unfolding next_canonical
chase s zero id = raise canonical_chain
chase s (suc hops) id = do
  row ← gets (select_node s id)
  n ← or_raise row type_error
  elim (next_canonical n) [ none ↦ pure id | some next ↦ chase s hops next ]

-- `_resolve_canonical`, with _MAX_CANONICAL_CHAIN
unfoldable pub resolve_canonical : Session → ℕ → Tx Db ℕ
unfolding chase
resolve_canonical s id = chase s 10 id

peer_of : ℕ → Edge → ℕ
peer_of id e = if e.src == id then e.dst else e.src

bodies : List (Option Node) → List String
bodies [] = []
bodies (none ∷ rows) = bodies rows
bodies (some n ∷ rows) = n.body ∷ bodies rows

-- `_same_topic_peer_bodies`
unfoldable pub same_topic_peer_bodies : Session → ℕ → Db → List String
unfolding peer_of bodies
same_topic_peer_bodies s id db =
    let edges =
      keep
        (λ e. (e.space == s.space && e.edge_type == "same_topic") && (e.src == id || e.dst == id))
        db.edges in
    bodies (map (λ e. select_node s (peer_of id e) db) edges)

-- `attrs.get("addenda", [])`
unfoldable pub addenda_of : Fields → Items
addenda_of attrs = elim (get "addenda" attrs) [ some (arr items) ↦ items | _ ↦ nil ]

-- `a.get("body", "")`
body_of : Json → String
body_of (obj d) = elim (get "body" d) [ some (str s) ↦ s | _ ↦ "" ]
body_of _ = ""

unfoldable pub addenda_bodies : Items → List String
unfolding body_of
addenda_bodies nil = []
addenda_bodies (cons a rest) = body_of a ∷ addenda_bodies rest

-- `" ".join(...)`
unfoldable pub join : List String → String
join [] = ""
join (s ∷ []) = s
join (s ∷ t ∷ ts) = s <> (" " <> join (t ∷ ts))

unfoldable pub corpus_of : Session → Node → Db → String
unfolding addenda_bodies join
corpus_of s c db =
    c.body
    <> (" "
        <> (join (addenda_bodies (addenda_of c.attrs))
            <> (" " <> join (same_topic_peer_bodies s c.id db))))
