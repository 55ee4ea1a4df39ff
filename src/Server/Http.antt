-- ===== src/Server/Http.antt =====
-- engraphy/server/app.py: `BearerAuthMiddleware` and the route POST /inbox. The application behind the
-- middleware is a function, `json.loads` too; a body is a list of bytes.
pub mod Doors
pub mod Captures
pub mod Bodies
use Prim.Native.Char.{code}
use engraphy.Base.{
  ℕ, ◌+◌, ◌-◌, ◌*◌, ◌/◌, String, Bool, true, false, not, ◌&&◌, ◌||◌, Option, none, some, List, [],
  ◌∷◌, ◌++◌, max, leb, ltb, length, ◌==◌, string_eq, nat_eq, if◌then◌else◌,
}
use engraphy.Core.Json.{Json, null, str, obj, Fields, get}
use engraphy.Core.AttrSpec.{codes}
use engraphy.Core.Tx.{Result, ok, err, transaction}
use engraphy.Core.Store.{Db, Session, InboxRow}
use engraphy.Core.Inbox.{capture}
use engraphy.Server.Auth.{
  TokenRow, PrincipalRow, AuthContext, Resolved, identity, unauthorized, resolve_token,
  require_active_principal, classify_kind, require_write,
}
use engraphy.Server.RateLimit.{
  RateLimiter, Verdict, accepted, rate_limited, index_error, check, FailureTracker, is_banned,
  record_failure,
}
use engraphy.Server.Limits.{read_rate_limits}

pub record Request : Type 0 where
  pub is_http : Bool
  pub path : String
  pub client_host : Option String
  pub authorization : String

-- What the middleware reads: the tables of tokens and principals, and its own ban list.
pub record Door : Type 0 where
  pub fails : FailureTracker
  pub tokens : List TokenRow
  pub principals : List PrincipalRow

-- The answer of the middleware, or that of the application.
pub data Response (A : Type 0) : Type 0 where
  unauthorized_401 : Response A
  served : A → Response A

-- A letter, or its capital; the space has none.
is_letter : ℕ → ℕ → Bool
is_letter letter c = c == letter || (leb 97 letter && c + 32 == letter)

-- The rest of a text after a prefix in either case
after_prefix : List ℕ → String → Option String
unfolding is_letter
after_prefix [] s = some s
after_prefix (l ∷ ls) String.[] = none
after_prefix (l ∷ ls) (String.◌∷◌ c s) =
    let rest = after_prefix ls s in if is_letter l (code c) then rest else none

-- `auth_header[7:] if auth_header.lower().startswith("bearer ") else ""`
unfoldable pub raw_token : String → String
unfolding after_prefix codes
raw_token auth_header = elim (after_prefix (codes "bearer ") auth_header) [
  | none ↦ ""
  | some token ↦ token
]

unfoldable pub client_key : Request → String
client_key r = elim r.client_host [ none ↦ "unknown" | some host ↦ host ]

-- The identity of a bearer whose principal is active, and the tokens after its use
unfoldable pub admitted : List PrincipalRow → Resolved → Option AuthContext
admitted principals (unauthorized e) = none
admitted principals (identity ctx tokens) =
    if require_active_principal principals ctx then some ctx else none

-- The token's use is committed before its principal is looked at.
unfoldable pub tokens_after : List TokenRow → Resolved → List TokenRow
tokens_after tokens (unauthorized e) = tokens
tokens_after tokens (identity ctx left) = left

unfoldable pub serve :
    {S A : Type 0}
    → (Option AuthContext → S → A × S)
    → ℕ
    → String
    → Door
    → S
    → Option AuthContext
    → Response A × Door × S
serve app mono key door s none =
    (unauthorized_401, record door { fails = record_failure door.fails mono key }, s)
serve app mono key door s (some ctx) = let (a, left) = app (some ctx) s in (served a, door, left)

-- `BearerAuthMiddleware.__call__`. `mono` is the time of the monotonic clock, `now` that of the tables.
unfoldable pub call :
    {S A : Type 0}
    → (String → String)
    → (Option AuthContext → S → A × S)
    → ℕ
    → ℕ
    → Request
    → Door
    → S
    → Response A × Door × S
unfolding serve admitted tokens_after client_key raw_token
call hash_token app mono now r door s =
    if not r.is_http || r.path == "/healthz"
    then (let (a, left) = app none s in (served a, door, left))
    else (let (banned, fails) = is_banned door.fails mono (client_key r) in
        let resolved = resolve_token hash_token now door.tokens (raw_token r.authorization) in
        if banned
        then (unauthorized_401, record door { fails = fails }, s)
        else serve app mono (client_key r)
            (record door { fails = fails; tokens = tokens_after door.tokens resolved }) s
            (admitted door.principals resolved))

-- `INBOX_MAX_BODY_BYTES`
abbrev pub inbox_max_body_bytes : ℕ
inbox_max_body_bytes = 65536

-- The loop over the stream, given the chunks so far; none is _BodyTooLarge
unfoldable pub read_stream : ℕ → List ℕ → List (List ℕ) → Option (List ℕ)
read_stream limit body [] = some body
read_stream limit body (chunk ∷ chunks) =
    let rest = read_stream limit (body ++ chunk) chunks in
    if ltb limit (length body + length chunk) then none else rest

-- `_read_capped_body`, for the number of a Content-Length that is one
unfoldable pub read_capped_body : ℕ → Option ℕ → List (List ℕ) → Option (List ℕ)
unfolding read_stream
read_capped_body limit none chunks = read_stream limit [] chunks
read_capped_body limit (some declared) chunks =
    if ltb limit declared then none else read_stream limit [] chunks

-- The answer to a capture: the values as they were given, and what the row adds to them.
pub record Receipt : Type 0 where
  pub id : ℕ
  pub kind : Json
  pub payload : Json
  pub scope : Option Json
  pub created_at : ℕ

-- The answers of the route by their status.
pub data InboxResponse : Type 0 where
  captured_200 : Receipt → InboxResponse
  malformed_400 refused_400 role_403 too_large_413 : InboxResponse
  retry_429 : ℕ → InboxResponse
  escaped_500 : InboxResponse

-- `max(1, math.ceil(retry_after_ms / 1000))`
retry_after_s : ℕ → ℕ
retry_after_s ms = max 1 ((ms + 999) / 1000)

-- `body["kind"]`, `body["payload"]` and `body.get("scope")` of what was parsed
unfoldable pub capture_fields : Option Json → Option (Json × Json × Option Json)
capture_fields (some (obj body)) = elim (get "kind" body) [
  | none ↦ none
  | some kind ↦ elim (get "payload" body) [
    | none ↦ none
    | some payload ↦ some (kind, payload, get "scope" body)
  ]
]
capture_fields _ = none

-- What a column of texts takes of a value: NULL of a null, a text as it is, and of another value what
-- the driver and the database make of it; none where they refuse it.
unfoldable pub column_text : (Json → Option String) → Json → Option (Option String)
column_text others null = some none
column_text others (str s) = some (some s)
column_text others value = elim (others value) [ none ↦ none | some text ↦ some (some text) ]

-- The scope of a capture
unfoldable pub scope_of : (Json → Option String) → Option Json → Option (Option String)
unfolding column_text
scope_of others none = some none
scope_of others (some value) = column_text others value

unfoldable pub captured : Json → Json → Option Json → Result InboxRow × Db → InboxResponse × Db
captured kind payload scope (ok row, db) = (
  captured_200 (record {
    id = row.id;
    kind = kind;
    payload = payload;
    scope = scope;
    created_at = row.created_at;
  }),
  db,
)
captured kind payload scope (err e, db) = (refused_400, db)

-- The call of `capture`, with what the columns of the kind and of the scope take.
unfoldable pub capture_call :
    Session
    → Option (Option String)
    → Option (Option String)
    → Json
    → Json
    → Option Json
    → Db
    → InboxResponse × Db
unfolding captured
capture_call s (some k) (some sc) kind payload scope db =
    captured kind payload scope (transaction (capture s k payload sc) db)
capture_call s _ _ kind payload scope db = (refused_400, db)

unfoldable pub capture_body :
    (Json → Option String)
    → (List ℕ → Option Json)
    → Session
    → Option (List ℕ)
    → Db
    → InboxResponse × Db
unfolding capture_call column_text scope_of
capture_body others loads s none db = (too_large_413, db)
capture_body others loads s (some raw) db = elim (capture_fields (loads raw)) [
  | none ↦ (malformed_400, db)
  | some (kind, payload, scope) ↦
      capture_call s (column_text others kind) (scope_of others scope) kind payload scope db
]

unfoldable pub capture_checked :
    (Json → Option String)
    → (List ℕ → Option Json)
    → Session
    → Option (List ℕ)
    → Verdict
    → Db
    → InboxResponse × Db
unfolding capture_body retry_after_s
capture_checked others loads s body accepted db = capture_body others loads s body db
capture_checked others loads s body (rate_limited ms) db = (retry_429 (retry_after_s ms), db)
capture_checked others loads s body index_error db = (escaped_500, db)

-- `_inbox_capture`. `id_text` is the text of a token's id.
unfoldable pub inbox_capture :
    (Json → Option String)
    → (List ℕ → Option Json)
    → (ℕ → String)
    → AuthContext
    → ℕ
    → Option ℕ
    → List (List ℕ)
    → RateLimiter
    → Db
    → InboxResponse × RateLimiter × Db
unfolding capture_checked
inbox_capture others loads id_text ctx mono declared chunks r db =
    let (read_limit, write_limit) = read_rate_limits ctx.space_id db in
    let (v, left) =
      check r mono (id_text ctx.token_id) (classify_kind "POST /inbox" none) read_limit
        write_limit in
    let (o, after) =
      capture_checked others loads (record { space = ctx.space_id; principal = ctx.principal })
        (read_capped_body inbox_max_body_bytes declared chunks) v db in
    if require_write ctx "POST /inbox" none then (o, left, after) else (role_403, r, db)
