-- ===== src/Core/Store.antt =====
-- The tables that engraphy/core reads and writes, and the statements that its functions send, as
-- engraphy/db/schema.sql answers them: row-level security, triggers and constraints included. A
-- row id is a number; `next_id` stands for gen_random_uuid(), of which only freshness is used.
-- `session` is the identity that server/db.py sets for a transaction.
pub mod Growth
pub mod Moves
use engraphy.Base.{
  ℕ, suc, ◌+◌, ◌≤◌, String, ◌≡◌, refl, Bool, true, false, not, ◌&&◌, ◌||◌, Option, none, some, List,
  [], ◌∷◌, ◌++◌, map, ℤ, leb, length, keep, any, find_first, ◌==◌, Eq, contains, string_eq, nat_eq,
  if◌then◌else◌,
}
use engraphy.Core.Json.{Json, Fields}
use engraphy.Core.AttrSpec.{Dates, Spec, validate_attrs}
use engraphy.Core.Tx.{
  Tx, Error, edge_rule, check_violation, unique_violation, privilege, pure, raise, gets, modify,
  require, or_raise, ◌>>=◌, ◌>>◌,
}

pub data Status : Type 0 where
  active superseded merged archived : Status

Status-discrete : Discrete Status
Status-discrete = hlevel

instance unfoldable pub status_eq : Eq Status
unfolding Status-discrete
status_eq = record { dec = Status-discrete }

abbrev pub Vector : Type 0
Vector = List ℤ

pub record Node : Type 0 where
  pub id : ℕ
  pub space : String
  pub node_type : String
  pub scope : String
  pub title : String
  pub body : String
  pub attrs : Fields
  pub status : Status
  pub canonical : Option ℕ
  pub embedding : Vector
  pub embedding_model : String
  pub source_client : String
  pub source_session : Option String
  pub author : String
  pub extra_search : String
  pub created_at : ℕ
  pub recall_count : ℕ
  pub last_recalled_at : Option ℕ

pub record Edge : Type 0 where
  pub space : String
  pub src : ℕ
  pub dst : ℕ
  pub edge_type : String

pub record EdgeRule : Type 0 where
  pub space : String
  pub edge_type : String
  pub src_type : String
  pub dst_type : String

-- A row of edge_types.
pub record EdgeType : Type 0 where
  pub space : String
  pub name : String
  pub bidirectional : Bool

pub data Visibility : Type 0 where
  closed team_read team_write : Visibility

pub record ScopeRow : Type 0 where
  pub space : String
  pub id : String
  pub owner : String
  pub visibility : Visibility
  pub ambient : Bool
  pub is_archived : Bool
  pub display_name : String
  pub description : Option String
  pub hints : List String
  pub created_at : ℕ

pub record GrantRow : Type 0 where
  pub space : String
  pub scope : String
  pub principal : String
  pub can_write : Bool

pub record TypeRow : Type 0 where
  pub space : String
  pub name : String
  pub spec : Spec

pub record ConfigRow : Type 0 where
  pub space : String
  pub key : String
  pub value : Json

pub data LogBand : Type 0 where
  merge_band pending_band insert_band merge_linked_band : LogBand

pub record DedupRow : Type 0 where
  pub space : String
  pub node_type : String
  pub node : Option ℕ
  pub candidate : Option ℕ
  pub similarity : Option ℤ
  pub band : LogBand
  pub author : String

pub record AuditRow : Type 0 where
  pub space : String
  pub principal : String
  pub client_name : String
  pub action : String
  pub node : Option ℕ

-- One of `{type, src_id?, dst_id?}` as the caller sent it: the `type` if it is a text, the fields
-- that are not known, and the two endpoints.
pub record Link : Type 0 where
  pub link_type : Option String
  pub extra : List String
  pub src_id : Option ℕ
  pub dst_id : Option ℕ

-- An entry of a candidate list.
pub record Candidate : Type 0 where
  pub id : ℕ
  pub title : String
  pub body : String
  pub similarity : ℤ

-- What a pending write parks.
pub record Payload : Type 0 where
  pub node_type : String
  pub scope : String
  pub title : String
  pub body : String
  pub attrs : Fields
  pub source_client : String
  pub source_session : Option String
  pub embedding : Vector
  pub candidates : List Candidate
  pub links : List Link
  pub extra_search : String

pub record PendingRow : Type 0 where
  pub id : ℕ
  pub space : String
  pub author : String
  pub payload : Payload
  pub expires_at : ℕ
  pub created_at : ℕ

pub data InboxStatus : Type 0 where
  pending promoted discarded : InboxStatus

InboxStatus-discrete : Discrete InboxStatus
InboxStatus-discrete = hlevel

instance unfoldable pub inbox_status_eq : Eq InboxStatus
unfolding InboxStatus-discrete
inbox_status_eq = record { dec = InboxStatus-discrete }

pub record InboxRow : Type 0 where
  pub id : ℕ
  pub space : String
  pub scope : Option String
  pub kind : Option String
  pub payload : Json
  pub status : InboxStatus
  pub created_at : ℕ

-- A row of metrics_rollup: `bucket_date` is the day since the epoch.
pub record MetricRow : Type 0 where
  pub space : String
  pub principal : String
  pub metric : String
  pub bucket_date : ℕ
  pub count : ℕ

pub record Session : Type 0 where
  pub space : String
  pub principal : String

-- `admins` are the principals with the role space_admin.
pub record Db : Type 0 where
  pub nodes : List Node
  pub edges : List Edge
  pub edge_types : List EdgeType
  pub edge_rules : List EdgeRule
  pub scopes : List ScopeRow
  pub admins : List Session
  pub grants : List GrantRow
  pub types : List TypeRow
  pub config : List ConfigRow
  pub dedup_log : List DedupRow
  pub audit_log : List AuditRow
  pub pending : List PendingRow
  pub inbox : List InboxRow
  pub metrics : List MetricRow
  pub next_id : ℕ
  pub now : ℕ

is_team : Visibility → Bool
is_team closed = false
is_team team_read = true
is_team team_write = true

is_team_write : Visibility → Bool
is_team_write closed = false
is_team_write team_read = false
is_team_write team_write = true

unfoldable pub granted : Session → Db → ScopeRow → (GrantRow → Bool) → Bool
granted s db r level =
    any (λ g. (g.space == r.space && g.scope == r.id) && (g.principal == s.principal && level g))
      db.grants

unfoldable pub can_read : Session → Db → ScopeRow → Bool
unfolding is_team granted
can_read s db r =
    (r.space == s.space && not r.is_archived)
    && (is_team r.visibility || (r.owner == s.principal || granted s db r (λ _. true)))

unfoldable pub can_write_scope : Session → Db → ScopeRow → Bool
unfolding is_team_write granted
can_write_scope s db r =
    (r.space == s.space && not r.is_archived)
    && (is_team_write r.visibility || (r.owner == s.principal || granted s db r (λ g. g.can_write)))

-- `SELECT engraphy_readable_scopes()`
unfoldable pub readable_scopes : Session → Db → List String
unfolding can_read
readable_scopes s db = map (λ r. r.id) (keep (can_read s db) db.scopes)

-- `SELECT engraphy_writable_scopes()`
unfoldable pub writable_scopes : Session → Db → List String
unfolding can_write_scope
writable_scopes s db = map (λ r. r.id) (keep (can_write_scope s db) db.scopes)

-- The explicit scopes and the ambient ones that the session can read.
unfoldable pub ambient_scope_set : Session → List String → Db → List String
unfolding can_read
ambient_scope_set s explicit db =
    explicit ++ map (λ r. r.id) (keep (λ r. can_read s db r && r.ambient) db.scopes)

-- The key of the merge history, of which `{k: v ... if k != "addenda"}` takes the rest.
abbrev pub is_addenda : String → Bool
is_addenda k = k == "addenda"

-- The policy nodes_read.
unfoldable pub visible : Session → Db → Node → Bool
unfolding readable_scopes
visible s db n = n.space == s.space && contains (readable_scopes s db) n.scope

-- `SELECT ... FROM nodes WHERE id = ...`
unfoldable pub select_node : Session → ℕ → Db → Option Node
unfolding visible
select_node s id db = find_first (λ n. n.id == id && visible s db n) db.nodes

-- The policy edges_read.
unfoldable pub readable_edge : Session → Db → Edge → Bool
unfolding visible
readable_edge s db e =
    e.space == s.space
    && (any (λ n. n.id == e.src && visible s db n) db.nodes
        && any (λ n. n.id == e.dst && visible s db n) db.nodes)

unfoldable pub has_rule : Session → String → String → String → Db → Bool
has_rule s edge_type src_type dst_type db =
    any
      (λ r.
        (r.space == s.space && r.edge_type == edge_type)
        && (r.src_type == src_type && r.dst_type == dst_type))
      db.edge_rules

unfoldable pub find_spec : Session → String → Db → Option Spec
find_spec s name db = elim (find_first (λ r. r.space == s.space && r.name == name) db.types) [
  | none ↦ none
  | some r ↦ some r.spec
]

unfoldable pub count : String → ℕ
count String.[] = 0
count (String.◌∷◌ c s) = suc (count s)

-- The triggers and constraints of an INSERT into nodes.
unfoldable pub node_error : Dates → Session → Node → Db → Option Error
unfolding find_spec count
node_error dates s n db = elim (find_spec s n.node_type db) [
  | none ↦ some check_violation
  | some spec ↦
      if not (length (validate_attrs dates spec n.attrs) == 0)
      then some check_violation
      else if not (contains (writable_scopes s db) n.scope)
      then some privilege
      else if (leb 3 (count n.title) && leb (count n.title) 200)
          && (leb 1 (count n.body) && leb (count n.body) 8000)
      then none
      else some check_violation
]

-- `or_raise` the other way round.
unfoldable pub unless_error : Option Error → Tx Db Unit
unless_error none db = pure tt db
unless_error (some e) db = raise e db

unfoldable pub append_node : Node → Db → Db
append_node n db = record db { nodes = db.nodes ++ n ∷ []; next_id = suc db.next_id }

-- `INSERT INTO nodes ... RETURNING id`, for a row whose id is the next one
unfoldable pub insert_node : Dates → Session → Node → Tx Db Unit
unfolding node_error unless_error append_node
insert_node dates s n = do e ← gets (node_error dates s n); unless_error e; modify (append_node n)

is_writable : Session → Db → Node → Bool
is_writable s db n = contains (writable_scopes s db) n.scope

-- The trigger edges_validate, the policy edges_write and the constraint `src_id <> dst_id`.
unfoldable pub edge_error : Session → String → Option Node → Option Node → Db → Option Error
unfolding is_writable
edge_error s edge_type (some a) (some b) db =
    if not (has_rule s edge_type a.node_type b.node_type db)
    then some edge_rule
    else if not (is_writable s db a || is_writable s db b)
    then some privilege
    else if a.id == b.id
    then some check_violation
    else none
edge_error s edge_type _ _ db = some check_violation

unfoldable pub has_edge : ℕ → ℕ → String → Db → Bool
has_edge src dst edge_type db =
    any (λ e. e.src == src && (e.dst == dst && e.edge_type == edge_type)) db.edges

unfoldable pub add_edge : Edge → Db → Db
add_edge e db =
    if has_edge e.src e.dst e.edge_type db then db else record db { edges = db.edges ++ e ∷ [] }

-- `INSERT INTO edges ... ON CONFLICT (src_id, dst_id, type) DO NOTHING`; true if a row was added
unfoldable pub insert_edge : Session → ℕ → ℕ → String → Tx Db Bool
unfolding edge_error unless_error add_edge
insert_edge s src dst edge_type = do
  a ← gets (select_node s src)
  b ← gets (select_node s dst)
  e ← gets (edge_error s edge_type a b)
  unless_error e
  present ← gets (has_edge src dst edge_type)
  modify (add_edge (record { space = s.space; src = src; dst = dst; edge_type = edge_type }))
  pure (not present)

-- The same without ON CONFLICT
unfoldable pub insert_new_edge : Session → ℕ → ℕ → String → Tx Db Unit
unfolding insert_edge
insert_new_edge s src dst edge_type = do
  added ← insert_edge s src dst edge_type
  require added unique_violation

unfoldable pub log_dedup : DedupRow → Tx Db Unit
log_dedup r = modify (λ db. record db { dedup_log = db.dedup_log ++ r ∷ [] })

unfoldable pub log_audit : AuditRow → Tx Db Unit
log_audit r = modify (λ db. record db { audit_log = db.audit_log ++ r ∷ [] })

-- `UPDATE nodes SET ... WHERE id = ...` on the row with the id
unfoldable pub update_at : ℕ → (Node → Node) → List Node → List Node
update_at id f = map (λ n. if n.id == id then f n else n)

unfoldable pub update_error : Dates → Session → Option Node → (Node → Node) → Db → Option Error
unfolding find_spec is_writable
update_error dates s none f db = none
update_error dates s (some n) f db = elim (find_spec s n.node_type db) [
  | none ↦ some check_violation
  | some spec ↦
      if not (length (validate_attrs dates spec (f n).attrs) == 0)
      then some check_violation
      else if not (is_writable s db n)
      then some privilege
      else none
]

rewrite_row : ℕ → (Node → Node) → Option Node → Db → Db
rewrite_row id f none db = db
rewrite_row id f (some n) db = record db { nodes = update_at id f db.nodes }

-- The row, if the session sees it, is rewritten; it must be writable and its attrs valid.
unfoldable pub update_node : Dates → Session → ℕ → (Node → Node) → Tx Db Unit
unfolding update_error unless_error rewrite_row
update_node dates s id f = do
  n ← gets (select_node s id)
  e ← gets (update_error dates s n f)
  unless_error e
  modify (rewrite_row id f n)
