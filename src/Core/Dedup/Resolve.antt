-- ===== src/Core/Dedup/Resolve.antt =====
-- engraphy/core/dedup.py: `resolve_duplicate`, which answers a parked write.
use engraphy.Base.{
  ℕ, String, Bool, true, false, not, ◌&&◌, Option, none, some, List, [], ◌∷◌, ℤ, pos, ltb, keep,
  find_first, ◌==◌, string_eq, nat_eq, if◌then◌else◌,
}
use engraphy.Core.Tx.{
  Tx, value_error, not_found, pending_expired, pure, gets, or_raise, modify, require, ◌>>=◌, ◌>>◌,
}
use engraphy.Core.Store.{
  Db, Session, Node, active, archived, superseded, status_eq, LogBand, Candidate, PendingRow,
  Payload, select_node, insert_edge, log_dedup,
}
use engraphy.Core.Dedup.Bands.{BandThresholds, resolve_config}
use engraphy.Core.Dedup.Envelope.{Env, Incoming, Envelope, inserted, Reply}
use engraphy.Core.Dedup.Candidates.{resolve_canonical}
use engraphy.Core.Dedup.Branches.{merge_branch}
use engraphy.Core.Dedup.Write.{locked_core, plain_reply, require_writable}

pub data Resolution : Type 0 where
  distinct : Resolution
  merge : ℕ → Resolution

-- The two checks before the transaction.
resolution_of : String → Option ℕ → Option Resolution
resolution_of name merge_into =
    if name == "distinct"
    then some distinct
    else if name == "merge"
    then elim merge_into [ none ↦ none | some id ↦ some (merge id) ]
    else none

-- `SELECT payload, expires_at FROM pending_writes`, where the policy shows a row to its author
unfoldable pub select_pending : Session → ℕ → Db → Option PendingRow
select_pending s id db =
    find_first (λ r. r.id == id && (r.space == s.space && r.author == s.principal)) db.pending

unfoldable pub incoming_of : Payload → Incoming
incoming_of p = record {
  node_type = p.node_type;
  scope = p.scope;
  title = p.title;
  body = p.body;
  attrs = p.attrs;
  embedding = p.embedding;
  source_client = p.source_client;
  source_session = p.source_session;
  links = p.links;
  extra_search = p.extra_search;
}

unfoldable pub is_active : Option Node → Bool
is_active none = false
is_active (some n) = n.status == active

-- `_attach_relates_to_nearest_active`
unfoldable pub attach_relates_to_nearest_active : Session → ℕ → List Candidate → Tx Db Bool
unfolding is_active
attach_relates_to_nearest_active s node [] = pure false
attach_relates_to_nearest_active s node (c ∷ candidates) = do
  row ← gets (select_node s c.id)
  let rest = attach_relates_to_nearest_active s node candidates
  if is_active row then (insert_edge s node c.id "relates_to" >> pure true) else rest

unfoldable pub relate : Session → List Candidate → Envelope → Tx Db Reply
relate s candidates (inserted v) = do
  added ← attach_relates_to_nearest_active s v.id candidates
  pure (record (plain_reply (inserted v) []) { relates_edge_added = some added })
relate s candidates e = pure (plain_reply e [])

unfoldable pub resolve_distinct : Env → Session → BandThresholds → Payload → Tx Db Reply
unfolding relate
resolve_distinct env s bands p = do
  e ← locked_core env s (incoming_of p) bands (record {
    collapse_pending_to_insert = true;
    exclude_id = none;
    import_mode = false;
    action = "write";
  })
  relate s p.candidates e

unfoldable pub still_open : Node → Bool
still_open n = not (n.status == archived) && not (n.status == superseded)

snapshot_similarity : ℕ → List Candidate → ℤ
snapshot_similarity id candidates = elim (find_first (λ c. c.id == id) candidates) [
  | none ↦ pos 1000000
  | some c ↦ c.similarity
]

unfoldable pub log_merge : Session → Payload → ℕ → ℤ → ℕ × LogBand × Envelope → Tx Db Reply
log_merge s p merge_into similarity (node, band, e) = do
  log_dedup (record {
    space = s.space;
    node_type = p.node_type;
    node = some node;
    candidate = some merge_into;
    similarity = some similarity;
    band = band;
    author = s.principal;
  })
  pure (plain_reply e [])

unfoldable pub resolve_merge : Env → Session → ℕ → Payload → Tx Db Reply
unfolding log_merge snapshot_similarity
resolve_merge env s merge_into p = do
  canonical ← resolve_canonical s merge_into
  row ← gets (select_node s canonical)
  target ← or_raise row not_found
  require (still_open target) pending_expired
  let similarity = snapshot_similarity merge_into p.candidates
  outcome ← merge_branch env s canonical (incoming_of p) similarity
  log_merge s p merge_into similarity outcome

unfoldable pub run_resolution : Env → Session → BandThresholds → Resolution → Payload → Tx Db Reply
unfolding resolve_distinct resolve_merge
run_resolution env s bands distinct p = resolve_distinct env s bands p
run_resolution env s bands (merge id) p = resolve_merge env s id p

-- `DELETE FROM pending_writes WHERE id = ...`
unfoldable pub delete_pending : ℕ → Db → Db
delete_pending id db = record db { pending = keep (λ r. not (r.id == id)) db.pending }

-- The transaction of `resolve_duplicate`, with the checks before it.
unfoldable pub resolve_duplicate :
    Env → Session → String → Option BandThresholds → Option ℤ → ℕ → String → Option ℕ → Tx Db Reply
unfolding resolution_of
resolve_duplicate env s profile thresholds resonance_floor pending_id name merge_into = do
  resolution ← or_raise (resolution_of name merge_into) value_error
  (bands, floor) ← resolve_config s profile thresholds resonance_floor
  found ← gets (select_pending s pending_id)
  row ← or_raise found not_found
  now ← gets (λ db. db.now)
  require (ltb now row.expires_at) pending_expired
  require_writable s row.payload.scope
  reply ← run_resolution env s bands resolution row.payload
  modify (delete_pending pending_id)
  pure reply
