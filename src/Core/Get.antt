-- ===== src/Core/Get.antt =====
-- engraphy/core/get.py: point lookup by id.
pub mod Blind
use engraphy.Base.{
  ℕ, String, Bool, not, ◌&&◌, ◌||◌, Option, none, some, List, [], ◌∷◌, map, leb, ltb, keep, take,
  ◌==◌, contains, string_eq, nat_eq, if◌then◌else◌, sort_by,
}
use engraphy.Core.Json.{Json, Fields, text_leb, get, without}
use engraphy.Core.Tx.{Tx, pure, gets, ◌>>=◌}
use engraphy.Core.Store.{Db, Session, Node, Edge, Status, select_node, readable_edge, is_addenda}

-- `{src, dst, type}`
pub record EdgeSummary : Type 0 where
  pub src : ℕ
  pub dst : ℕ
  pub edge_type : String

pub record GetItem : Type 0 where
  pub id : ℕ
  pub node_type : String
  pub scope : String
  pub title : String
  pub body : String
  pub attrs : Fields
  pub status : Status
  pub author : String
  pub created_at : ℕ
  pub addenda : Option Json
  pub edges_out : List EdgeSummary
  pub edges_in : List EdgeSummary

summary : Edge → EdgeSummary
summary e = record { src = e.src; dst = e.dst; edge_type = e.edge_type }

-- ORDER BY the peer's id, then the type
peer_before : (Edge → ℕ) → Edge → Edge → Bool
peer_before peer a b =
    ltb (peer a) (peer b) || (peer a == peer b && text_leb a.edge_type b.edge_type)

-- `_edges_out` and `_edges_in`: edges whose one end is the node, by their other end
unfoldable pub edges_at : Session → ℕ → (Edge → ℕ) → (Edge → ℕ) → Db → List EdgeSummary
unfolding summary peer_before sort_by
edges_at s id near peer db = map summary (
    take 10
      (sort_by (peer_before peer) (keep (λ e. readable_edge s db e && near e == id) db.edges)))

-- The item of a row; without addenda the answer shows an empty list.
unfoldable pub get_item : Session → Db → Node → GetItem
unfolding edges_at
get_item s db n = record {
  id = n.id;
  node_type = n.node_type;
  scope = n.scope;
  title = n.title;
  body = n.body;
  attrs = without is_addenda n.attrs;
  status = n.status;
  author = n.author;
  created_at = n.created_at;
  addenda = get "addenda" n.attrs;
  edges_out = edges_at s n.id (λ e. e.src) (λ e. e.dst) db;
  edges_in = edges_at s n.id (λ e. e.dst) (λ e. e.src) db;
}

pub record GetReply : Type 0 where
  pub nodes : List GetItem
  pub missing : List ℕ

-- `if row is None: continue`; such an id is reported as missing.
unfoldable pub add_row : (Node → GetItem) → ℕ → Option Node → GetReply → GetReply
add_row item id none r = record r { missing = id ∷ r.missing }
add_row item id (some n) r = record r { nodes = item n ∷ r.nodes }

-- `for node_id in ids`: the rows found, and the ids with no row
unfoldable pub look_up : Session → Db → List ℕ → GetReply
unfolding get_item add_row
look_up s db [] = record { nodes = []; missing = [] }
look_up s db (id ∷ ids) = add_row (get_item s db) id (select_node s id db) (look_up s db ids)

-- `get`: 25 ids at most
unfoldable pub get_nodes : Session → List ℕ → Tx Db GetReply
unfolding look_up
get_nodes s ids = gets (λ db. look_up s db (take 25 ids))
