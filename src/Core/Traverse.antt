-- ===== src/Core/Traverse.antt =====
-- engraphy/core/traverse.py: the walk over the edges from a node, and the answer of `traverse`. The rows of
-- the recursive query are computed round by round; rows that its order does not tell apart keep the
-- order in which they are found.
pub mod Walk
pub mod Reaches
pub mod Stops
pub mod Reply
pub mod Loops
pub mod Shown
use engraphy.Base.{
  ℕ, zero, suc, ◌+◌, ◌-◌, String, Bool, true, false, not, ◌&&◌, ◌||◌, Option, none, some, List, [],
  ◌∷◌, ◌++◌, map, ℤ, pos, negsuc, leb, ltb, min, max, length, keep, any, take, find_first, ◌==◌,
  contains, string_eq, nat_eq, if◌then◌else◌, sort_by,
}
use engraphy.Core.Json.{text_leb}
use engraphy.Core.Store.{
  Db, Session, Node, Edge, EdgeType, Status, archived, status_eq, visible, readable_edge,
}

-- The arguments of the query: `only` is the list of edge types, if one is asked for.
pub record Steps : Type 0 where
  pub start : ℕ
  pub only : Option (List String)
  pub fwd : Bool
  pub rev : Bool
  pub max_depth : ℕ

-- A row of `walk`
pub record Walked : Type 0 where
  pub edge : Edge
  pub node : ℕ
  pub depth : ℕ
  pub path : List ℕ

-- `CASE WHEN e.src_id = node THEN e.dst_id ELSE e.src_id END`
unfoldable pub other_end : Edge → ℕ → ℕ
other_end e node = if e.src == node then e.dst else e.src

-- `JOIN edge_types et ON ...`, whose key is the space and the name
edge_type_of : Edge → Db → Option EdgeType
edge_type_of e db = find_first (λ t. t.space == e.space && t.name == e.edge_type) db.edge_types

wanted : Option (List String) → String → Bool
wanted none edge_type = true
wanted (some types) edge_type = contains types edge_type

-- The test of an edge's direction, seen from a node.
leads_from : Steps → Edge → ℕ → Bool → Bool
leads_from q e node bidirectional =
    (e.src == node && (q.fwd || bidirectional)) || (e.dst == node && (q.rev || bidirectional))

-- `EXISTS (SELECT 1 FROM nodes n WHERE n.id = ... AND n.status = 'archived')`
is_archived_node : Session → Db → ℕ → Bool
is_archived_node s db id =
    any (λ n. n.id == id && (n.status == archived && visible s db n)) db.nodes

-- What both parts of the query ask of an edge that is walked from a node.
unfoldable pub crosses : Session → Steps → Db → ℕ → Edge → Bool
unfolding edge_type_of wanted leads_from is_archived_node other_end
crosses s q db node e =
    (readable_edge s db e && (e.space == s.space && wanted q.only e.edge_type))
    && ((elim (edge_type_of e db) [ none ↦ false | some t ↦ leads_from q e node t.bidirectional ])
        && not (is_archived_node s db (other_end e node)))

unfoldable pub first_row : ℕ → Edge → Walked
unfolding other_end
first_row start e = record {
  edge = e;
  node = other_end e start;
  depth = 1;
  path = start ∷ other_end e start ∷ [];
}

-- The first part of the query
unfoldable pub first_rows : Session → Steps → Db → List Walked
unfolding crosses first_row
first_rows s q db = map (first_row q.start) (keep (crosses s q db q.start) db.edges)

unfoldable pub next_row : Walked → Edge → Walked
unfolding other_end
next_row w e = record {
  edge = e;
  node = other_end e w.node;
  depth = w.depth + 1;
  path = w.path ++ other_end e w.node ∷ [];
}

-- The second part, for one row of `walk`
unfoldable pub next_of : Session → Steps → Db → Walked → List Walked
unfolding crosses next_row other_end
next_of s q db w = map (next_row w) (
    keep
      (λ e.
        ltb w.depth q.max_depth
        && (crosses s q db w.node e && not (contains w.path (other_end e w.node))))
      db.edges)

unfoldable pub next_rows : Session → Steps → Db → List Walked → List Walked
unfolding next_of
next_rows s q db [] = []
next_rows s q db (w ∷ ws) = next_of s q db w ++ next_rows s q db ws

-- The rows of so many rounds, of which the first is given.
unfoldable pub rounds : Session → Steps → Db → ℕ → List Walked → List Walked
unfolding next_rows
rounds s q db zero level = level
rounds s q db (suc n) level = level ++ rounds s q db n (next_rows s q db level)

unfoldable pub walk : Session → Steps → Db → List Walked
unfolding rounds first_rows
walk s q db = rounds s q db q.max_depth (first_rows s q db)

-- ORDER BY depth, src_id, dst_id, type
row_before : Walked → Walked → Bool
row_before a b =
    ltb a.depth b.depth
    || (a.depth == b.depth
        && (ltb a.edge.src b.edge.src
            || (a.edge.src == b.edge.src
                && (ltb a.edge.dst b.edge.dst
                    || (a.edge.dst == b.edge.dst && text_leb a.edge.edge_type b.edge.edge_type)))))

-- The answer of the query, with its LIMIT
unfoldable pub walk_rows : Session → Steps → ℕ → Db → List Walked
unfolding walk row_before
walk_rows s q lim db = take lim (sort_by row_before (walk s q db))
