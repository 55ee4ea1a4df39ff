-- ===== src/Core/Link.antt =====
-- engraphy/core/link.py: edges between two existing nodes. An endpoint that is no text is none; a
-- text that is no id is not modelled.
pub mod Attaches
use engraphy.Base.{
  ℕ, suc, ◌+◌, String, Bool, true, false, not, ◌&&◌, Option, none, some, List, [], ◌∷◌, length,
  ◌==◌, nat_eq, if◌then◌else◌,
}
use engraphy.Core.Tx.{Tx, not_found, validation, pure, gets, or_raise, require, ◌>>=◌, ◌>>◌}
use engraphy.Core.Store.{Db, Session, Link, archived, status_eq, select_node, insert_edge}

is_given : {A : Type 0} → Option A → Bool
is_given none = false
is_given (some a) = true

-- One item of `_validate_edges_shape`
unfoldable pub item_ok : Link → Bool
unfolding is_given
item_ok l =
    (is_given l.link_type && length l.extra == 0) && (is_given l.src_id && is_given l.dst_id)

unfoldable pub validate_edges_shape : List Link → Tx Db Unit
unfolding item_ok
validate_edges_shape [] = pure tt
validate_edges_shape (l ∷ ls) = do require (item_ok l) validation; validate_edges_shape ls

-- `for peer in (src_id, dst_id)`: seen, and not archived
unfoldable pub check_peer : Session → ℕ → Tx Db Unit
check_peer s peer = do
  found ← gets (select_node s peer)
  n ← or_raise found not_found
  require (not (n.status == archived)) validation

unfoldable pub attach_edge : Session → String → ℕ → ℕ → Tx Db Bool
attach_edge s edge_type src dst = do
  check_peer s src
  check_peer s dst
  insert_edge s src dst edge_type

-- An item that passed the shape check has all three parts.
unfoldable pub attach_item : Session → Option String → Option ℕ → Option ℕ → Tx Db Bool
attach_item s (some edge_type) (some src) (some dst) = attach_edge s edge_type src dst
attach_item s _ _ _ = do require false validation; pure false

-- `if cur.rowcount == 1: attached += 1`, else `skipped += 1`
unfoldable pub count_row : Bool → ℕ × ℕ → ℕ × ℕ
count_row true (attached, skipped) = (suc attached, skipped)
count_row false (attached, skipped) = (attached, suc skipped)

unfoldable pub attach_all : Session → List Link → Tx Db (ℕ × ℕ)
attach_all s [] = pure (0, 0)
attach_all s (l ∷ ls) = do
  added ← attach_item s l.link_type l.src_id l.dst_id
  counts ← attach_all s ls
  pure (count_row added counts)

-- `link`: the attached and the skipped
unfoldable pub link_nodes : Session → List Link → Tx Db (ℕ × ℕ)
link_nodes s edges = do validate_edges_shape edges; attach_all s edges
