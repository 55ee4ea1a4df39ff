-- ===== src/Core/Inbox.antt =====
-- engraphy/core/inbox.py: capture, triage, promotion and discard. A statement after the commit of
-- another one is a later step on the tables; none of those that follow a commit here can raise.
pub mod Asides
pub mod Settles
pub mod Lifecycle
pub mod History
pub mod Pages
use engraphy.Base.{
  ℕ, suc, ◌+◌, String, Bool, true, false, not, ◌&&◌, ◌||◌, Option, none, some, List, [], ◌∷◌, ◌++◌,
  map, ℤ, leb, ltb, length, keep, take, drop, find_first, ◌==◌, contains, string_eq, nat_eq,
  if◌then◌else◌, sort_by,
}
use engraphy.Core.Json.{Json}
use engraphy.Core.Tx.{
  Tx, not_found, scope_unknown, validation, privilege, pure, gets, modify, or_raise, require, ◌>>=◌,
  ◌>>◌,
}
use engraphy.Core.Store.{
  Db, Session, InboxRow, InboxStatus, pending, promoted, discarded, inbox_status_eq,
  readable_scopes, writable_scopes,
}
use engraphy.Core.Metrics.{counted}
use engraphy.Core.Dedup.Bands.{BandThresholds}
use engraphy.Core.Dedup.Envelope.{Env, Incoming, Reply}
use engraphy.Core.Dedup.Counted.{write_counted, outcome_of}

-- `scope_id IS NULL OR scope_id IN (...)`
unfoldable pub in_reach : List String → Option String → Bool
in_reach scopes none = true
in_reach scopes (some scope) = contains scopes scope

-- The policy inbox_read.
unfoldable pub inbox_visible : Session → Db → InboxRow → Bool
unfolding in_reach
inbox_visible s db r = r.space == s.space && in_reach (readable_scopes s db) r.scope

unfoldable pub new_item : Session → Option String → Json → Option String → Db → InboxRow
new_item s kind payload scope db = record {
  id = db.next_id;
  space = s.space;
  scope = scope;
  kind = kind;
  payload = payload;
  status = pending;
  created_at = db.now;
}

unfoldable pub append_item : InboxRow → Db → Db
append_item r db = record db { inbox = db.inbox ++ r ∷ []; next_id = suc db.next_id }

-- `capture`, with the policy inbox_write
unfoldable pub capture : Session → Option String → Json → Option String → Tx Db InboxRow
unfolding in_reach new_item append_item
capture s kind payload scope = do
  writable ← gets (writable_scopes s)
  require (in_reach writable scope) privilege
  r ← gets (new_item s kind payload scope)
  modify (append_item r)
  pure r

-- ORDER BY created_at ASC, id ASC
unfoldable pub older : InboxRow → InboxRow → Bool
older a b = ltb a.created_at b.created_at || (a.created_at == b.created_at && leb a.id b.id)

-- The pending rows that the session reads, oldest first.
unfoldable pub queue : Session → Db → List InboxRow
unfolding inbox_visible older sort_by
queue s db = sort_by older (keep (λ r. inbox_visible s db r && r.status == pending) db.inbox)

pub record Page : Type 0 where
  pub items : List InboxRow
  pub truncated : Bool

-- `list_pending`, for a limit and an offset that are not negative: one row more is fetched
unfoldable pub list_pending : Session → ℕ → ℕ → Tx Db Page
unfolding queue
list_pending s limit offset = do
  rows ← gets (λ db. take (limit + 1) (drop offset (queue s db)))
  pure (record { items = take limit rows; truncated = ltb limit (length rows) })

-- `SELECT ... FROM inbox WHERE id = ...`
unfoldable pub select_item : Session → ℕ → Db → Option InboxRow
unfolding inbox_visible
select_item s id db = find_first (λ r. r.id == id && inbox_visible s db r) db.inbox

-- `_load_actionable`
unfoldable pub load_actionable : Session → ℕ → Tx Db Unit
unfolding select_item in_reach
load_actionable s id = do
  found ← gets (select_item s id)
  row ← or_raise found not_found
  writable ← gets (writable_scopes s)
  require (in_reach writable row.scope) scope_unknown
  require (row.status == pending) validation

-- The rows that an UPDATE finds: the policies inbox_read and inbox_update.
unfoldable pub updatable : Session → ℕ → Db → InboxRow → Bool
unfolding inbox_visible in_reach
updatable s id db r =
    r.id == id && (inbox_visible s db r && in_reach (writable_scopes s db) r.scope)

unfoldable pub with_status : InboxStatus → InboxRow → InboxRow
with_status status r = record r { status = status }

-- `UPDATE inbox SET status = ... WHERE id = ...`
unfoldable pub set_status : Session → ℕ → InboxStatus → Db → Db
unfolding updatable with_status
set_status s id status db = record db {
  inbox = map (λ r. if updatable s id db r then with_status status r else r) db.inbox;
}

-- `promote`, after the embedding of the reviewer's fields, with no transaction of another session
-- between its three
unfoldable pub promote :
    Env → Session → String → Option BandThresholds → Option ℤ → ℕ → Incoming → Tx Db Reply
unfolding set_status
promote env s profile thresholds floor inbox_id inc =
    counted s (λ r. ("promotes", 1) ∷ [])
      (do
        load_actionable s inbox_id
        r ← write_counted env s profile thresholds floor false "write" inc
        if outcome_of r.envelope == "needs_confirmation"
            then pure tt
            else modify (set_status s inbox_id promoted)
        pure r)

-- `discard`
unfoldable pub discard : Session → ℕ → Tx Db Unit
unfolding set_status
discard s inbox_id = do load_actionable s inbox_id; modify (set_status s inbox_id discarded)
