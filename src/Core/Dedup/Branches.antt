-- ===== src/Core/Dedup/Branches.antt =====
-- engraphy/core/dedup.py: the branches of a write, each of which changes the tables and builds its
-- envelope.
use engraphy.Base.{
  ℕ, ◌+◌, suc, String, Bool, true, false, ◌&&◌, not, Option, none, some, List, [], ◌∷◌, ◌++◌, ℤ,
  ◌==◌, string_eq, if◌then◌else◌,
}
use engraphy.Core.Json.{Json, str, null, arr, obj, items_append, end, field, get, put, without}
use engraphy.Core.Jaccard.{is_novel}
use engraphy.Core.Tx.{Tx, type_error, pure, gets, or_raise, modify, ◌>>=◌, ◌>>◌}
use engraphy.Core.Store.{
  Db, Session, Node, Candidate, Payload, PendingRow, LogBand, merge_band, merge_linked_band, active,
  select_node, insert_node, insert_edge, update_node, has_rule, is_addenda,
}
use engraphy.Core.Dedup.Envelope.{
  Env, Incoming, NodeView, Envelope, merged, merged_linked, needs_confirmation, review_queued,
}
use engraphy.Core.Dedup.Links.{attach_links}
use engraphy.Core.Dedup.Candidates.{candidate_rows, corpus_of, addenda_of}

unfoldable pub view_of : Node → NodeView
view_of n = record {
  id = n.id;
  node_type = n.node_type;
  scope = n.scope;
  title = n.title;
  body = n.body;
  attrs = without is_addenda n.attrs;
  status = n.status;
  author = n.author;
  created_at = n.created_at;
}

-- The row that the INSERT of `_do_insert` adds.
unfoldable pub new_node : Env → Session → Incoming → Db → Node
new_node env s inc db = record {
  id = db.next_id;
  space = s.space;
  node_type = inc.node_type;
  scope = inc.scope;
  title = inc.title;
  body = inc.body;
  attrs = inc.attrs;
  status = active;
  canonical = none;
  embedding = inc.embedding;
  embedding_model = env.model_stamp;
  source_client = inc.source_client;
  source_session = inc.source_session;
  author = s.principal;
  extra_search = inc.extra_search;
  created_at = db.now;
  recall_count = 0;
  last_recalled_at = none;
}

-- `_do_insert`
unfoldable pub do_insert : Env → Session → Incoming → Tx Db NodeView
do_insert env s inc = do n ← gets (new_node env s inc); insert_node env.dates s n; pure (view_of n)

unfoldable pub first_row : String → String → List Candidate → Option Envelope
first_row title body [] = none
first_row title body (c ∷ cs) = some (review_queued title body c)

-- `_do_review_queue`
unfoldable pub do_review_queue : Env → Session → Incoming → List (ℕ × ℕ) → Tx Db Envelope
unfolding first_row
do_review_queue env s inc candidates = do
  rows ← candidate_rows env s candidates
  or_raise (first_row inc.title inc.body rows) type_error

unfoldable pub payload_of : Incoming → List Candidate → Payload
payload_of inc rows = record {
  node_type = inc.node_type;
  scope = inc.scope;
  title = inc.title;
  body = inc.body;
  attrs = inc.attrs;
  source_client = inc.source_client;
  source_session = inc.source_session;
  embedding = inc.embedding;
  candidates = rows;
  links = inc.links;
  extra_search = inc.extra_search;
}

-- 24 hours, in microseconds
abbrev pub pending_ttl : ℕ
pending_ttl = 86400000000

-- `INSERT INTO pending_writes ... RETURNING id, expires_at`
unfoldable pub park : Session → Payload → Db → Db
park s payload db =
    let row : PendingRow = record {
      id = db.next_id;
      space = s.space;
      author = s.principal;
      payload = payload;
      expires_at = db.now + pending_ttl;
      created_at = db.now;
    } in
    record db { pending = db.pending ++ row ∷ []; next_id = suc db.next_id }

-- `_do_pending`
unfoldable pub do_pending : Env → Session → Incoming → List (ℕ × ℕ) → Tx Db Envelope
unfolding park
do_pending env s inc candidates = do
  rows ← candidate_rows env s candidates
  id ← gets (λ db. db.next_id)
  now ← gets (λ db. db.now)
  modify (park s (payload_of inc rows))
  pure (needs_confirmation id (now + pending_ttl) rows)

-- `INSERT ... ON CONFLICT DO NOTHING`, if the pack has a rule for it; whether it has
unfoldable pub link_if_ruled : Session → String → ℕ → String → ℕ → String → Tx Db Bool
link_if_ruled s edge_type src src_type dst dst_type = do
  ruled ← gets (has_rule s edge_type src_type dst_type)
  if ruled then (insert_edge s src dst edge_type >> pure true) else pure false

-- `_do_merge_link`
unfoldable pub do_merge_link : Env → Session → Node → Incoming → ℤ → Tx Db Envelope
do_merge_link env s c inc similarity = do
  member ← do_insert env s inc
  counts ← attach_links s member.id inc.links
  added ← link_if_ruled s "same_topic" member.id inc.node_type c.id c.node_type
  pure (merged_linked member c.id (env.round2 similarity) added)

is_null : Option Json → Bool
is_null none = true
is_null (some null) = true
is_null (some _) = false

-- `!=` on what two `attrs.get("happened_at")` give, of which the first is not None. They are texts if
-- the spec of the type `error` declares a date; other values count as different here, equal or not.
differ : Option Json → Option Json → Bool
differ (some (str a)) (some (str b)) = not (a == b)
differ _ _ = true

unfoldable pub is_reoccurrence : Node → Incoming → Bool
unfolding is_null differ
is_reoccurrence c inc =
    c.node_type == "error"
    && (not (is_null (get "happened_at" inc.attrs))
        && differ (get "happened_at" inc.attrs) (get "happened_at" c.attrs))

json_or_null : Option Json → Json
json_or_null none = null
json_or_null (some v) = v

text_or_null : Option String → Json
text_or_null none = null
text_or_null (some t) = str t

addendum : Env → Session → Incoming → ℕ → Json
unfolding json_or_null text_or_null
addendum env s inc now = obj (
    field "merged_at" (str (env.isoformat now)) (
      field "source_client" (str inc.source_client) (
        field "source_session" (text_or_null inc.source_session) (
          field "author_principal" (str s.principal) (
            field "body" (str inc.body)
              (field "happened_at" (json_or_null (get "happened_at" inc.attrs)) end))))))

-- `jsonb_set(attrs, '{addenda}', ...)`
unfoldable pub add_addendum : Json → Node → Node
add_addendum a n = record n {
  attrs = put "addenda" (arr (items_append (addenda_of n.attrs) a)) n.attrs;
}

unfoldable pub append_reoccurrence : Env → Session → Node → Incoming → Tx Db Node
unfolding addendum
append_reoccurrence env s c inc = do
  now ← gets (λ db. db.now)
  let a = addendum env s inc now
  update_node env.dates s c.id (add_addendum a)
  pure (add_addendum a c)

-- The addendum of a reoccurrence, and the node as it is then.
unfoldable pub note_reoccurrence : Env → Session → Node → Incoming → Tx Db Node
note_reoccurrence env s c inc =
    if is_reoccurrence c inc then append_reoccurrence env s c inc else pure c

-- `_do_absorb`
unfoldable pub do_absorb : Env → Session → Node → Incoming → ℤ → Tx Db Envelope
unfolding note_reoccurrence
do_absorb env s c inc similarity = do
  shown ← note_reoccurrence env s c inc
  counts ← attach_links s c.id inc.links
  pure (merged (view_of shown) (env.round2 similarity) (is_reoccurrence c inc) counts)

-- What `_merge_branch` gives: the node for the log, the band for the log, the envelope.
unfoldable pub logged_as : ℕ → Envelope → ℕ × LogBand × Envelope
logged_as canonical (merged_linked member c sim added) =
    (member.id, merge_linked_band, merged_linked member c sim added)
logged_as canonical e = (canonical, merge_band, e)

-- `_merge_branch`
unfoldable pub merge_branch : Env → Session → ℕ → Incoming → ℤ → Tx Db (ℕ × LogBand × Envelope)
merge_branch env s canonical inc similarity = do
  row ← gets (select_node s canonical)
  c ← or_raise row type_error
  corpus ← gets (corpus_of s c)
  envelope ←
      if is_novel env.unicode inc.body corpus
      then do_merge_link env s c inc similarity
      else do_absorb env s c inc similarity
  pure (logged_as canonical envelope)
