-- ===== src/Core/Dedup/Write.antt =====
-- engraphy/core/dedup.py: `write` and the pipeline of its transaction.
use engraphy.Base.{
  ℕ, String, Bool, true, false, not, ◌&&◌, Option, none, some, List, [], ◌∷◌, any, ℤ, find_first,
  ◌==◌, contains, string_eq, nat_eq, if◌then◌else◌,
}
use engraphy.Core.Json.{Fields, end, keys}
use engraphy.Core.AttrSpec.{Spec, Dates, DroppedAttr, reserved_attr_keys, sanitize_attrs}
use engraphy.Core.Tx.{
  Tx, validation, scope_unknown, type_error, pure, gets, or_raise, require, ◌>>=◌, ◌>>◌,
}
use engraphy.Core.Store.{
  Db, Session, LogBand, pending_band, insert_band, writable_scopes, log_dedup, log_audit,
}
use engraphy.Core.Dedup.Bands.{BandThresholds, Band, select_band, resolve_config}
use engraphy.Core.Dedup.Links.{validate_links_shape, attach_links}
use engraphy.Core.Dedup.Envelope.{
  Env, Incoming, Envelope, inserted, merged, merged_linked, merged_silently, merged_linked_silently,
  Reply,
}
use engraphy.Core.Dedup.Candidates.{candidate_query, best_of, resolve_canonical}
use engraphy.Core.Dedup.Branches.{do_insert, do_review_queue, do_pending, merge_branch}

-- `_validate_no_reserved_attrs`
unfoldable pub validate_no_reserved_attrs : Fields → Tx Db Unit
validate_no_reserved_attrs attrs =
    require (not (any (contains (keys attrs)) reserved_attr_keys)) validation

-- RESERVED_NODE_TYPES of engraphy/core/sentinel.py
abbrev pub reserved_node_types : List String
reserved_node_types = "engraphy_sentinel" ∷ []

-- `_validate_not_reserved_type`
unfoldable pub validate_not_reserved_type : String → Tx Db Unit
validate_not_reserved_type node_type =
    require (not (contains reserved_node_types node_type)) validation

-- A type with no row has the empty spec.
abbrev empty_spec : Spec
empty_spec = record { required = []; optional = []; requires = []; closed = false }

unfoldable pub spec_for : Session → String → Db → Spec
spec_for s node_type db =
    elim (find_first (λ r. r.space == s.space && r.name == node_type) db.types) [
      | none ↦ empty_spec
      | some r ↦ r.spec
    ]

unfoldable pub sanitized : Dates → Spec → Fields → Fields × List DroppedAttr
sanitized dates spec end = (end, [])
sanitized dates spec attrs = sanitize_attrs dates spec attrs

-- `_sanitize_attrs_for_write`
unfoldable pub sanitize_attrs_for_write :
    Dates → Session → String → Fields → Tx Db (Fields × List DroppedAttr)
unfolding sanitized
sanitize_attrs_for_write dates s node_type attrs = do
  spec ← gets (spec_for s node_type)
  pure (sanitized dates spec attrs)

-- The flags of `_locked_core`.
pub record Flags : Type 0 where
  pub collapse_pending_to_insert : Bool
  pub exclude_id : Option ℕ
  pub import_mode : Bool
  pub action : String

-- What import mode leaves of a merge envelope.
unfoldable pub stripped : Bool → Envelope → Envelope
stripped true (merged v sim added counts) = merged_silently added
stripped true (merged_linked v c sim added) = merged_linked_silently
stripped _ e = e

unfoldable pub insert_branch : Env → Session → Incoming → Tx Db (Option ℕ × LogBand × Envelope)
insert_branch env s inc = do
  v ← do_insert env s inc
  counts ← attach_links s v.id inc.links
  pure (some v.id, insert_band, inserted v)

unfoldable pub pending_branch :
    Env → Session → Incoming → Bool → List (ℕ × ℕ) → Tx Db (Option ℕ × LogBand × Envelope)
pending_branch env s inc import_mode candidates = do
  e ← if import_mode then do_review_queue env s inc candidates else do_pending env s inc candidates
  pure (none, pending_band, e)

unfoldable pub for_log : Bool → ℕ × LogBand × Envelope → Option ℕ × LogBand × Envelope
for_log import_mode (id, band, e) = (some id, band, stripped import_mode e)

unfoldable pub merge_band_branch :
    Env → Session → Incoming → Bool → Option ℕ → ℤ → Tx Db (Option ℕ × LogBand × Envelope)
unfolding for_log
merge_band_branch env s inc import_mode best similarity = do
  id ← or_raise best type_error
  canonical ← resolve_canonical s id
  outcome ← merge_branch env s canonical inc similarity
  pure (for_log import_mode outcome)

-- The three branches, `pending` read as `insert` where the caller has decided.
unfoldable pub run_band :
    Env → Session → Incoming → Flags → Band → List (ℕ × ℕ) → Tx Db (Option ℕ × LogBand × Envelope)
unfolding insert_branch pending_branch merge_band_branch
run_band env s inc f Band.merge candidates =
    let (best, similarity) = best_of candidates in
    merge_band_branch env s inc f.import_mode best similarity
run_band env s inc f Band.pending candidates =
    if f.collapse_pending_to_insert
    then insert_branch env s inc
    else pending_branch env s inc f.import_mode candidates
run_band env s inc f Band.insert candidates = insert_branch env s inc

similarity_of : Option ℕ × ℤ → Option ℤ
similarity_of (none, sim) = none
similarity_of (some id, sim) = some sim

fst_best : Option ℕ × ℤ → Option ℕ
fst_best (best, sim) = best

unfoldable pub max_similarity : List (ℕ × ℕ) → ℤ
max_similarity candidates = let (best, sim) = best_of candidates in sim

unfoldable pub write_logs :
    Session → Incoming → Flags → List (ℕ × ℕ) → Option ℕ × LogBand × Envelope → Tx Db Envelope
unfolding similarity_of fst_best
write_logs s inc f candidates (node, band, e) = do
  log_dedup (record {
    space = s.space;
    node_type = inc.node_type;
    node = node;
    candidate = fst_best (best_of candidates);
    similarity = similarity_of (best_of candidates);
    band = band;
    author = s.principal;
  })
  log_audit (record {
    space = s.space;
    principal = s.principal;
    client_name = inc.source_client;
    action = f.action;
    node = node;
  })
  pure e

-- `_locked_core`
unfoldable pub locked_core : Env → Session → Incoming → BandThresholds → Flags → Tx Db Envelope
unfolding write_logs max_similarity
locked_core env s inc bands f = do
  candidates ← gets (candidate_query env s inc.node_type inc.scope inc.embedding f.exclude_id)
  outcome ← run_band env s inc f (select_band (max_similarity candidates) bands) candidates
  write_logs s inc f candidates outcome

abbrev pub plain_reply : Envelope → List DroppedAttr → Reply
plain_reply e dropped = record {
  envelope = e;
  dropped_attrs = dropped;
  relates_edge_added = none;
  superseded = none;
  downgraded = none;
}

-- `if scope_id not in writable: raise ScopeUnknownError`
unfoldable pub require_writable : Session → String → Tx Db Unit
require_writable s scope = do
  writable ← gets (writable_scopes s)
  require (contains writable scope) scope_unknown

-- The transaction of `write`, with the checks before it.
unfoldable pub write :
    Env
    → Session
    → String
    → Option BandThresholds
    → Option ℤ
    → Bool
    → String
    → Incoming
    → Tx Db Reply
write env s profile thresholds resonance_floor import_mode action inc = do
  validate_links_shape inc.links
  validate_no_reserved_attrs inc.attrs
  validate_not_reserved_type inc.node_type
  require_writable s inc.scope
  (bands, floor) ← resolve_config s profile thresholds resonance_floor
  (attrs, dropped) ← sanitize_attrs_for_write env.dates s inc.node_type inc.attrs
  e ←
      locked_core env s (record inc { attrs = attrs }) bands
        (record {
          collapse_pending_to_insert = false;
          exclude_id = none;
          import_mode = import_mode;
          action = action;
        })
  pure (plain_reply e dropped)
