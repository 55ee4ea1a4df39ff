-- ===== src/Tests/Doors.antt =====
-- Requests at the door of the server, and the theorems on them at concrete inputs.
use engraphy.Base.{
  ℕ, ◌+◌, String, ◌≡◌, refl, ◌⊎◌, Bool, true, false, Option, none, some, List, [], ◌∷◌, ◌++◌, ltb,
  length, ◌||◌, if◌then◌else◌,
}
use engraphy.Core.Json.{null, Json, end, field, str, obj}
use engraphy.Core.Store.{InboxRow, pending}
use engraphy.Core.Inbox.{append_item}
use engraphy.Server.Auth.{TokenRow, PrincipalRow, AuthContext}
use engraphy.Server.RateLimit.{no_events, no_fails, accepted, put_bucket, writes, RateLimiter}
use engraphy.Server.Http.{
  Request, Door, Response, served, call, InboxResponse, captured_200, inbox_capture,
  read_capped_body, inbox_max_body_bytes,
}
use engraphy.Server.Http.Doors.{Admitted, Refused, call-Admitted}
use engraphy.Server.Http.Captures.{
  Stored, Nothing, session_of, capture_check, receipt, inbox_capture-Stored,
}
use engraphy.Server.Http.Bodies.{joined, over, read_capped_body-whole}
use engraphy.Tests.Samples.{db}

abbrev token : TokenRow
token = record {
  id = 1;
  space_id = "main";
  principal = "alice";
  client_name = "laptop";
  token_hash = "secret";
  role = "readwrite";
  revoked = false;
  no_scope_all = false;
  last_used_at = none;
}

abbrev door : Door
door = record {
  fails = no_fails;
  tokens = token ∷ [];
  principals = record { space_id = "main"; id = "alice"; archived = false } ∷ [];
}

abbrev request : Request
request = record {
  is_http = true;
  path = "/mcp";
  client_host = some "10.0.0.1";
  authorization = "BEARER secret";
}

-- An application that counts its requests with an identity.
abbrev counter : Option AuthContext → ℕ → ℕ × ℕ
counter none n = (n, n)
counter (some ctx) n = (n, n + 1)

-- SHA-256 in place of the identity is not needed to tell two tokens apart.
abbrev no_hash : String → String
no_hash raw = raw

abbrev left_door : Door
left_door = (call no_hash counter 5 20 request door 0).1

request_run : call no_hash counter 5 20 request door 0 ≡ (served 0, left_door, 1)
unfolding call engraphy.Base.string_eq engraphy.Server.RateLimit.is_banned
    engraphy.Server.Auth.resolve_token engraphy.Base.nat_eq
    engraphy.Server.Auth.require_active_principal
request_run = refl

call-Admitted_example :
    ((a : ℕ) × (◌≡◌ {A = Response ℕ} (served 0) (served a))
      × Admitted no_hash counter 5 request door 0 a 1)
    ⊎ Refused {S = ℕ} {A = ℕ} 5 request door left_door 0 (served 0) 1
call-Admitted_example =
    call-Admitted no_hash counter 5 20 request door 0 (served 0) left_door 1 request_run

read_capped_body-whole_example : read_capped_body 3 (some 3) ((1 ∷ []) ∷ (2 ∷ 3 ∷ []) ∷ []) ≡ (
    if over (some 3) 3 || ltb 3 (length (joined ((1 ∷ []) ∷ (2 ∷ 3 ∷ []) ∷ [])))
    then none
    else some (joined ((1 ∷ []) ∷ (2 ∷ 3 ∷ []) ∷ [])))
read_capped_body-whole_example = read_capped_body-whole 3 (some 3) ((1 ∷ []) ∷ (2 ∷ 3 ∷ []) ∷ [])

-- No value but a null and a text is taken.
abbrev no_cast : Json → Option String
no_cast value = none

abbrev parsed : List ℕ → Option Json
parsed raw = some (obj (field "kind" null (field "payload" (str "it broke") end)))

abbrev caller : AuthContext
caller = record {
  token_id = 1;
  space_id = "main";
  principal = "alice";
  client_name = "laptop";
  role = "readwrite";
  no_scope_all = false;
}

abbrev item : InboxRow
item = record {
  id = 10;
  space = "main";
  scope = none;
  kind = none;
  payload = str "it broke";
  status = pending;
  created_at = 20;
}

abbrev after_capture : RateLimiter
after_capture = put_bucket no_events "token" writes (5 ∷ [])

capture_run :
    inbox_capture no_cast parsed (λ id. "token") caller 5 (some 2) ((1 ∷ 2 ∷ []) ∷ []) no_events db
    ≡ (captured_200 (receipt item null (str "it broke") none), after_capture, append_item item db)
unfolding inbox_capture engraphy.Server.Auth.require_write engraphy.Server.Auth.classify_kind
    engraphy.Base.string_eq engraphy.Server.RateLimit.check put_bucket append_item
    engraphy.Server.Limits.read_rate_limits read_capped_body engraphy.Server.Http.capture_fields
    engraphy.Core.Json.get engraphy.Core.Tx.transaction engraphy.Core.Inbox.capture
    engraphy.Core.Tx.◌>>=◌
capture_run = refl

inbox_capture-Stored_example :
    ((caller.role ≡ "readwrite")
      × (capture_check (λ id. "token") caller 5 no_events db ≡ (accepted, after_capture))
      × Stored no_cast parsed
          (session_of caller)
          (read_capped_body inbox_max_body_bytes (some 2) ((1 ∷ 2 ∷ []) ∷ []))
          db
          (captured_200 (receipt item null (str "it broke") none))
          (append_item item db))
    ⊎ Nothing db (captured_200 (receipt item null (str "it broke") none)) (append_item item db)
inbox_capture-Stored_example =
    inbox_capture-Stored no_cast parsed (λ id. "token") caller 5 (some 2) ((1 ∷ 2 ∷ []) ∷ [])
      no_events db (captured_200 (receipt item null (str "it broke") none)) after_capture
      (append_item item db) capture_run
