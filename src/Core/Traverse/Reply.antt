-- ===== src/Core/Traverse/Reply.antt =====
-- engraphy/core/traverse.py: `traverse`. An id is a number, so that its text and the value that the
-- tables hold do not differ.
use engraphy.Base.{
  ℕ, ◌+◌, String, Bool, not, ◌&&◌, ◌||◌, Option, none, some, List, [], ◌∷◌, ◌++◌, map, ℤ, pos,
  negsuc, leb, ltb, min, max, length, keep, any, take, ◌==◌, contains, string_eq, nat_eq,
  if◌then◌else◌, sort_by,
}
use engraphy.Core.AttrSpec.{Dates}
use engraphy.Core.Tx.{Tx, value_error, pure, gets, require, ◌>>=◌, ◌>>◌}
use engraphy.Core.Store.{Db, Session, Node, archived, status_eq, select_node}
use engraphy.Core.Dedup.Candidates.{resolve_canonical}
use engraphy.Core.Recall.{bump_recall}
use engraphy.Core.Get.{EdgeSummary}
use engraphy.Core.Search.Query.{NodeItem, node_envelope}
use engraphy.Core.Traverse.{Steps, Walked, walk_rows}

-- `_MAX_DEPTH_CAP`
abbrev pub max_depth_cap : ℕ
max_depth_cap = 4

-- `_LIMIT_CAP`
abbrev pub limit_cap : ℕ
limit_cap = 50

-- The arguments of `traverse`.
pub record Traversal : Type 0 where
  pub start_id : ℕ
  pub direction : String
  pub edge_types : List String
  pub max_depth : ℤ
  pub limit : ℤ
  pub detail : String

-- `max(1, min(n, cap))`
unfoldable pub clamp : ℕ → ℤ → ℕ
clamp cap (pos n) = max 1 (min n cap)
clamp cap (negsuc n) = 1

-- `list(edge_types) if edge_types else None`
only_types : List String → Option (List String)
only_types [] = none
only_types (t ∷ ts) = some (t ∷ ts)

unfoldable pub steps_of : Traversal → Steps
unfolding clamp only_types
steps_of a = record {
  start = a.start_id;
  only = only_types a.edge_types;
  fwd = a.direction == "out" || a.direction == "both";
  rev = a.direction == "in" || a.direction == "both";
  max_depth = clamp max_depth_cap a.max_depth;
}

-- `depth_of[nid] = min(depth, depth_of.get(nid, depth))`
unfoldable pub note_depth : ℕ → ℕ → List (ℕ × ℕ) → List (ℕ × ℕ)
note_depth node depth [] = (node, depth) ∷ []
note_depth node depth ((n, d) ∷ depths) =
    let rest = note_depth node depth depths in
    if n == node then (n, min depth d) ∷ depths else (n, d) ∷ rest

-- The loop over the rows, for `depth_of`, given what it holds so far
unfoldable pub depth_of : List (ℕ × ℕ) → List Walked → List (ℕ × ℕ)
unfolding note_depth
depth_of depths [] = depths
depth_of depths (w ∷ ws) = depth_of (note_depth w.node w.depth depths) ws

unfoldable pub is_seen : List EdgeSummary → Walked → Bool
is_seen seen w =
    any (λ e. e.src == w.edge.src && (e.dst == w.edge.dst && e.edge_type == w.edge.edge_type)) seen

-- The loop over the rows, for `edges_out`
unfoldable pub edges_out : List EdgeSummary → List Walked → List EdgeSummary
unfolding is_seen
edges_out seen [] = seen
edges_out seen (w ∷ ws) =
    let e : EdgeSummary = record {
      src = w.edge.src;
      dst = w.edge.dst;
      edge_type = w.edge.edge_type;
    } in
    edges_out (if is_seen seen w then seen else seen ++ e ∷ []) ws

-- An entry of `entries`, by the id of a canonical node
pub record Entry : Type 0 where
  pub id : ℕ
  pub depth : ℕ
  pub resolved_from : Option ℕ

-- `if canon not in entries or d < entries[canon][0]: entries[canon] = (d, rf)`
unfoldable pub enter : Entry → List Entry → List Entry
enter x [] = x ∷ []
enter x (y ∷ ys) =
    let rest = enter x ys in
    if y.id == x.id then (if ltb x.depth y.depth then x else y) ∷ ys else y ∷ rest

-- A node that was reached, with its depth and its canonical node.
pub record Hydrated : Type 0 where
  pub node : ℕ
  pub depth : ℕ
  pub canon : ℕ

-- `for nid, d in depth_of.items()`: the canonical node of each
unfoldable pub hydrate : Session → List (ℕ × ℕ) → Tx Db (List Hydrated)
hydrate s [] = pure []
hydrate s ((node, depth) ∷ depths) = do
  canon ← resolve_canonical s node
  rest ← hydrate s depths
  pure (record { node = node; depth = depth; canon = canon } ∷ rest)

unfoldable pub entry_of : Hydrated → Entry
entry_of h = record {
  id = h.canon;
  depth = h.depth;
  resolved_from = if h.canon == h.node then none else some h.node;
}

-- The same loop, for `entries`
unfoldable pub entries : List Entry → List Hydrated → List Entry
unfolding enter entry_of
entries es [] = es
entries es (h ∷ hs) = entries (enter (entry_of h) es) hs

unfoldable pub start_entry : ℕ → Entry
start_entry id = record { id = id; depth = 0; resolved_from = none }

-- `key=lambda kv: (kv[1][0], kv[0])`
unfoldable pub entry_before : Entry → Entry → Bool
entry_before a b = ltb a.depth b.depth || (a.depth == b.depth && leb a.id b.id)

-- An entry of `nodes_out`
pub record TraverseItem : Type 0 where
  pub node : NodeItem
  pub depth : ℕ
  pub resolved_from : Option ℕ

-- What the loop over the entries fills.
pub record Output : Type 0 where
  pub nodes : List TraverseItem
  pub hidden : List ℕ

-- One round of it, given what the later ones fill
unfoldable pub show_entry : String → ℕ → Entry → Option Node → Output → Output
show_entry detail start_id e none rest = rest
show_entry detail start_id e (some n) rest =
    if n.status == archived && not (e.id == start_id)
    then record rest { hidden = e.id ∷ rest.hidden }
    else record rest {
      nodes =
          record { node = node_envelope detail n; depth = e.depth; resolved_from = e.resolved_from }
          ∷ rest.nodes;
    }

unfoldable pub show_all : Session → Db → String → ℕ → List Entry → Output
unfolding show_entry
show_all s db detail start_id [] = record { nodes = []; hidden = [] }
show_all s db detail start_id (e ∷ es) =
    show_entry detail start_id e (select_node s e.id db) (show_all s db detail start_id es)

-- `canon_of.get(id) in hidden`
is_hidden : List Hydrated → List ℕ → ℕ → Bool
is_hidden hs hidden id = any (λ h. h.node == id && contains hidden h.canon) hs

-- The test that an edge stays for, if a node is hidden
unfoldable pub keeps_edge : List Hydrated → List ℕ → EdgeSummary → Bool
unfolding is_hidden
keeps_edge hs hidden e = not (is_hidden hs hidden e.src) && not (is_hidden hs hidden e.dst)

pub record TraverseReply : Type 0 where
  pub detail : String
  pub nodes : List TraverseItem
  pub edges : List EdgeSummary
  pub truncated : Bool

unfoldable pub sorted_entries : ℕ → List Hydrated → List Entry
unfolding start_entry entry_before entries sort_by
sorted_entries start_id hs = sort_by entry_before (entries (start_entry start_id ∷ []) hs)

-- `traverse`
unfoldable pub traverse : Dates → Session → Traversal → Tx Db TraverseReply
unfolding steps_of depth_of edges_out hydrate sorted_entries show_all keeps_edge clamp
traverse dates s a = do
  require (contains ("out" ∷ "in" ∷ "both" ∷ []) a.direction) value_error
  found ← gets (walk_rows s (steps_of a) (clamp limit_cap a.limit + 1))
  let rows : List Walked = take (clamp limit_cap a.limit) found
  hs ← hydrate s (depth_of [] rows)
  out ← gets (λ db. show_all s db a.detail a.start_id (sorted_entries a.start_id hs))
  bump_recall dates s (map (λ i. i.node.id) out.nodes)
  pure (record {
    detail = a.detail;
    nodes = out.nodes;
    edges = keep (keeps_edge hs out.hidden) (edges_out [] rows);
    truncated = ltb (clamp limit_cap a.limit) (length found);
  })
