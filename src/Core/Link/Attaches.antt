-- ===== src/Core/Link/Attaches.antt =====
-- engraphy/core/link.py: what a call of `link` adds.
use engraphy.Base.{
  ℕ, ◌+◌, String, ◌≡◌, Bool, true, false, some, List, ◌++◌, length, ◌==◌, nat_eq, string_eq, All,
}
use engraphy.Core.Tx.Leads.{Leads}
use engraphy.Core.Store.{Db, Edge, Session, Link, Node, archived, status_eq, select_node, has_rule}

-- The session sees the node, and it is not archived.
abbrev pub Open : Session → Db → ℕ → Node → Type 0
Open s db id n = (select_node s id db ≡ some n) × ((n.status == archived) ≡ false)

-- An edge that a call may add.
pub record Allowed (s : Session) (db : Db) (e : Edge) : Type 0 where
  pub space : e.space ≡ s.space
  pub src : Node
  pub dst : Node
  pub src_open : Open s db e.src src
  pub dst_open : Open s db e.dst dst
  pub rule : has_rule s e.edge_type src.node_type dst.node_type db ≡ true
  pub apart : (src.id == dst.id) ≡ false

-- The tables after a call: new edges at the end, and nothing else.
abbrev pub Added : Session → Db → ℕ → Db → Type 0
Added s db n after =
    (new : List Edge) × (after ≡ record db { edges = db.edges ++ new })
    × (length new ≡ n)
    × All (Allowed s db) new

new_edge : Session → String → ℕ → ℕ → Edge
new_edge s edge_type src dst = record {
  space = s.space;
  src = src;
  dst = dst;
  edge_type = edge_type;
}

abbrev bit : Bool → ℕ
bit true = 1
bit false = 0

module _ (s : Session) where
  -- What a call leaves: as many new edges as it counts as attached, and a count for each item.
  abbrev pub Linked : List Link → Db → ℕ × ℕ → Db → Type 0
  Linked ls db counts after = Added s db counts.0 after × (counts.0 + counts.1 ≡ length ls)
