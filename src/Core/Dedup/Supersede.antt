-- ===== src/Core/Dedup/Supersede.antt =====
-- engraphy/core/dedup.py: `supersede`, which replaces a node by a write.
use engraphy.Base.{
  ℕ, String, Bool, false, Option, none, some, List, ℤ, ◌==◌, string_eq, if◌then◌else◌,
}
use engraphy.Core.AttrSpec.{DroppedAttr}
use engraphy.Core.Tx.{Tx, not_found, validation, pure, gets, or_raise, require, ◌>>=◌, ◌>>◌}
use engraphy.Core.Store.{
  Db, Session, Node, active, superseded, status_eq, select_node, has_rule, insert_edge,
  insert_new_edge, update_node,
}
use engraphy.Core.Dedup.Bands.{BandThresholds, resolve_config}
use engraphy.Core.Dedup.Links.{validate_links_shape}
use engraphy.Core.Dedup.Envelope.{Env, Incoming, Envelope, inserted, merged_linked, Reply}
use engraphy.Core.Dedup.Write.{
  Flags, locked_core, plain_reply, require_writable, sanitize_attrs_for_write,
  validate_no_reserved_attrs, validate_not_reserved_type,
}

-- The row that the write added, if it added one that its envelope names.
unfoldable pub replacement_of : Envelope → Option ℕ
replacement_of (inserted v) = some v.id
replacement_of (merged_linked v c sim added) = some v.id
replacement_of _ = none

abbrev supersede_flags : Option ℕ → Flags
supersede_flags exclude_id = record {
  collapse_pending_to_insert = false;
  exclude_id = exclude_id;
  import_mode = false;
  action = "write";
}

abbrev downgrade_reply : Envelope → List DroppedAttr → ℕ → Bool → Reply
downgrade_reply e dropped old_id added = record (plain_reply e dropped) {
  downgraded = some (record { old_id = old_id; related_edge_added = added });
}

-- The `relates_to` edge from a replacement to the old node, if there is a rule for it
unfoldable pub relate_old : Session → String → String → ℕ → Option ℕ → Tx Db Bool
relate_old s new_type old_type old_id none = pure false
relate_old s new_type old_type old_id (some new_id) = do
  ruled ← gets (has_rule s "relates_to" new_type old_type)
  if ruled then insert_edge s new_id old_id "relates_to" else pure false

unfoldable pub downgrade_type :
    Env → Session → ℕ → Node → Incoming → BandThresholds → List DroppedAttr → Tx Db Reply
unfolding relate_old
downgrade_type env s old_id old inc bands dropped = do
  e ← locked_core env s inc bands (supersede_flags none)
  added ← relate_old s inc.node_type old.node_type old_id (replacement_of e)
  pure (downgrade_reply e dropped old_id added)

unfoldable pub flip : Node → Node
flip n = record n { status = superseded }

unfoldable pub retire : Env → Session → ℕ → List DroppedAttr → Envelope → Option ℕ → Tx Db Reply
unfolding flip
retire env s old_id dropped e none = pure (downgrade_reply e dropped old_id false)
retire env s old_id dropped e (some new_id) = do
  insert_new_edge s new_id old_id "supersedes"
  update_node env.dates s old_id flip
  pure (record (plain_reply e dropped) { superseded = some old_id })

unfoldable pub replace_same_type :
    Env → Session → ℕ → Incoming → BandThresholds → List DroppedAttr → Tx Db Reply
unfolding retire
replace_same_type env s old_id inc bands dropped = do
  e ← locked_core env s inc bands (supersede_flags (some old_id))
  retire env s old_id dropped e (replacement_of e)

unfoldable pub replace :
    Env → Session → ℕ → Node → Incoming → BandThresholds → List DroppedAttr → Tx Db Reply
unfolding downgrade_type replace_same_type
replace env s old_id old inc bands dropped =
    if old.node_type == inc.node_type
    then replace_same_type env s old_id inc bands dropped
    else downgrade_type env s old_id old inc bands dropped

-- The transaction of `supersede`, with the checks before it.
unfoldable pub supersede :
    Env → Session → String → Option BandThresholds → Option ℤ → ℕ → Incoming → Tx Db Reply
supersede env s profile thresholds resonance_floor old_id inc = do
  validate_links_shape inc.links
  validate_no_reserved_attrs inc.attrs
  validate_not_reserved_type inc.node_type
  (bands, floor) ← resolve_config s profile thresholds resonance_floor
  row ← gets (select_node s old_id)
  old ← or_raise row not_found
  require_writable s old.scope
  require_writable s inc.scope
  require (old.status == active) validation
  (attrs, dropped) ← sanitize_attrs_for_write env.dates s inc.node_type inc.attrs
  replace env s old_id old (record inc { attrs = attrs }) bands dropped
