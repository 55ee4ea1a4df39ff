-- ===== src/Core/Dedup/Resonance.antt =====
-- engraphy/core/dedup.py: the resonance report after a commit, and the attr surface before a write.
use engraphy.Base.{
  ℕ, String, Bool, true, not, ◌&&◌, ◌||◌, Option, none, some, List, [], ◌∷◌, ◌++◌, map, ℤ, sub_ℕ,
  leb, leb_ℤ, ltb, keep, take, ◌==◌, contains, string_eq, nat_eq, if◌then◌else◌, sort_by,
}
use engraphy.Core.Json.{Json, null, bool, text_leb}
use engraphy.Core.AttrSpec.{searchable_keys}
use engraphy.Core.Tx.{Tx, config_error, pure, gets, or_raise, ◌>>=◌}
use engraphy.Core.Store.{
  Db, Session, Node, Edge, Vector, active, status_eq, readable_scopes, visible, select_node,
}
use engraphy.Core.Dedup.Bands.{config_value}
use engraphy.Core.Dedup.Envelope.{Env, Envelope, inserted, merged, merged_linked}
use engraphy.Core.Dedup.Write.{spec_for}

-- `{type, direction, peer_id, peer_title}`
pub record LinkSummary : Type 0 where
  pub edge_type : String
  pub direction : String
  pub peer_id : ℕ
  pub peer_title : String

pub record Hit : Type 0 where
  pub id : ℕ
  pub node_type : String
  pub scope : String
  pub title : String
  pub similarity : ℤ
  pub links : List LinkSummary

-- ORDER BY direction, type, peer_id
link_before : LinkSummary → LinkSummary → Bool
link_before a b =
    if a.direction == b.direction
    then (if a.edge_type == b.edge_type
        then leb a.peer_id b.peer_id
        else text_leb a.edge_type b.edge_type)
    else text_leb a.direction b.direction

summaries : Session → Db → String → (Edge → ℕ) → List Edge → List LinkSummary
summaries s db direction peer [] = []
summaries s db direction peer (e ∷ es) =
    let rest = summaries s db direction peer es in
    elim (select_node s (peer e) db) [
      | none ↦ rest
      | some n ↦
          record {
            edge_type = e.edge_type;
            direction = direction;
            peer_id = n.id;
            peer_title = n.title;
          }
          ∷ rest
    ]

-- `_one_hop_links`
unfoldable pub one_hop_links : Session → ℕ → Db → List LinkSummary
unfolding summaries link_before sort_by
one_hop_links s id db =
    let outs = keep (λ e. e.space == s.space && e.src == id) db.edges in
    let ins = keep (λ e. e.space == s.space && e.dst == id) db.edges in
    take 5 (
      sort_by link_before
        (summaries s db "out" (λ e. e.dst) outs ++ summaries s db "in" (λ e. e.src) ins))

-- The WHERE of the report; similarity >= floor.
unfoldable pub resonates : Env → Session → Vector → ℕ → ℤ → Db → Node → Bool
resonates env s embedding exclude_id floor db n =
    (visible s db n && (n.status == active && not (n.id == exclude_id)))
    && (contains (readable_scopes s db) n.scope
        && leb_ℤ floor (sub_ℕ 1000000 (env.distance n.embedding embedding)))

-- ORDER BY distance, id
nearer_first : Env → Vector → Node → Node → Bool
nearer_first env embedding a b =
    let d = env.distance a.embedding embedding in
    let e = env.distance b.embedding embedding in ltb d e || (d == e && leb a.id b.id)

unfoldable pub resonant_nodes : Env → Session → Vector → ℕ → ℤ → Db → List Node
unfolding sort_by nearer_first
resonant_nodes env s embedding exclude_id floor db = take 3 (
    sort_by (nearer_first env embedding)
      (keep (resonates env s embedding exclude_id floor db) db.nodes))

unfoldable pub hit_of : Env → Session → Vector → Db → Node → Hit
hit_of env s embedding db n = record {
  id = n.id;
  node_type = n.node_type;
  scope = n.scope;
  title = n.title;
  similarity = env.round2 (sub_ℕ 1000000 (env.distance n.embedding embedding));
  links = one_hop_links s n.id db;
}

-- `_resonance_report`
unfoldable pub resonance_report : Env → Session → Vector → ℕ → ℤ → Db → List Hit
resonance_report env s embedding exclude_id floor db =
    map (hit_of env s embedding db) (resonant_nodes env s embedding exclude_id floor db)

-- `_resonance_exclude_id`
unfoldable pub resonance_exclude_id : Envelope → Option ℕ
resonance_exclude_id (inserted v) = some v.id
resonance_exclude_id (merged_linked v c sim added) = some v.id
resonance_exclude_id (merged v sim added counts) = some v.id
resonance_exclude_id _ = none

-- `_attach_resonance`: the report of an outcome that wrote, on the tables after the commit
unfoldable pub attach_resonance : Env → Session → Vector → Envelope → ℤ → Db → Option (List Hit)
attach_resonance env s embedding e floor db = elim (resonance_exclude_id e) [
  | none ↦ none
  | some id ↦ some (resonance_report env s embedding id floor db)
]

as_bool : Bool → Option Json → Option Bool
as_bool default none = some default
as_bool default (some null) = some default
as_bool default (some (bool b)) = some b
as_bool default (some _) = none

-- `_config_bool` on the configured value
unfoldable pub config_bool : Session → String → Bool → Tx Db Bool
unfolding as_bool
config_bool s key default = do
  v ← gets (config_value s key)
  or_raise (as_bool default v) config_error

-- `resolve_attr_surface`
unfoldable pub resolve_attr_surface : Session → String → Tx Db (List String × Bool)
resolve_attr_surface s node_type = do
  spec ← gets (spec_for s node_type)
  on ← config_bool s "write.attr_surface" true
  pure (searchable_keys spec, on)
