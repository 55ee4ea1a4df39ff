-- ===== src/Core/Dedup/Links.antt =====
-- engraphy/core/dedup.py: the links of a write, their shape and their attachment.
use engraphy.Base.{
  ℕ, suc, String, Bool, true, false, not, ◌&&◌, ◌||◌, Option, none, some, List, [], ◌∷◌, ◌==◌,
  string_eq, length, nat_eq,
}
use engraphy.Core.Tx.{Tx, validation, not_found, pure, require, gets, ◌>>=◌, ◌>>◌}
use engraphy.Core.Store.{Db, Session, Link, Node, select_node, insert_edge}

abbrev present : Option ℕ → Bool
present none = false
present (some id) = true

abbrev has_type : Option String → Bool
has_type none = false
has_type (some t) = true

-- The three tests of `_validate_links_shape` on one link, in its order; each fails with the same
-- error.
link_ok : Link → Bool
link_ok l =
    (has_type l.link_type && length l.extra == 0)
    && ((present l.src_id && not (present l.dst_id))
        || (not (present l.src_id) && present l.dst_id))

-- `_validate_links_shape`
unfoldable pub validate_links_shape : List Link → Tx Db Unit
unfolding link_ok
validate_links_shape [] = pure tt
validate_links_shape (l ∷ links) = do require (link_ok l) validation; validate_links_shape links

abbrev text_or_empty : Option String → String
text_or_empty none = ""
text_or_empty (some t) = t

-- The peer, the source and the destination of a link at a node.
ends_of : ℕ → Option ℕ → Option ℕ → ℕ × ℕ × ℕ
ends_of node (some src) dst = (src, src, node)
ends_of node none (some dst) = (dst, node, dst)
ends_of node none none = (0, node, 0)

abbrev is_there : Option Node → Bool
is_there none = false
is_there (some n) = true

unfoldable pub attach_link : Session → ℕ → Link → Tx Db Bool
unfolding ends_of
attach_link s node l =
    let (peer, src, dst) = ends_of node l.src_id l.dst_id in
    do
      row ← gets (select_node s peer)
      require (is_there row) not_found
      insert_edge s src dst (text_or_empty l.link_type)

unfoldable pub tally : Bool → ℕ × ℕ → ℕ × ℕ
tally true (attached, skipped) = (suc attached, skipped)
tally false (attached, skipped) = (attached, suc skipped)

-- `_attach_links`: how many links were attached, and how many were there already
unfoldable pub attach_links : Session → ℕ → List Link → Tx Db (ℕ × ℕ)
unfolding attach_link tally
attach_links s node [] = pure (0, 0)
attach_links s node (l ∷ links) = do
  added ← attach_link s node l
  counts ← attach_links s node links
  pure (tally added counts)
