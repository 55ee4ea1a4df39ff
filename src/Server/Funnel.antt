-- ===== src/Server/Funnel.antt =====
-- engraphy/server/app.py: `handle_call_tool`, which every call of a tool passes through. The state is the
-- rate limiter and the tables; the functions of engraphy/server/tools are those of `Tools`.
pub mod Passes
use engraphy.Base.{
  ℕ, String, Bool, true, false, Option, none, some, List, [], ◌∷◌, ℤ, ◌==◌, string_eq,
  if◌then◌else◌,
}
use engraphy.Core.Json.{Json, arr, obj, Fields, get}
use engraphy.Core.AttrSpec.{text_of}
use engraphy.Core.Tx.{Error, Result, ok, err}
use engraphy.Core.Store.{Db}
use engraphy.Server.Auth.{AuthContext, classify_kind, require_write}
use engraphy.Server.RateLimit.{RateLimiter, Verdict, accepted, rate_limited, index_error, check}
use engraphy.Server.Limits.{read_rate_limits}
use engraphy.Server.Wire.Validate.{validate}
use engraphy.Server.Errors.{Code, code_validation, code_role, to_tool_error}
use engraphy.Server.Registry.{Target, unknown, tool, raised, resolve_dispatch}

-- The dispatchers by the tool's name, each with the identity, the arguments and the action of a write,
-- and the text of a token's id. A dispatcher may commit some transactions and then raise.
pub record Tools : Type 0 where
  pub dispatcher : String → AuthContext → Fields → Option String → Db → Result Json × Db
  pub id_text : ℕ → String

-- The answer to a call, or an exception that the handler does not catch.
pub data Outcome : Type 0 where
  answer : Json → Outcome
  refusal : Code → Outcome
  back_off : ℕ → Outcome
  escaped : Outcome

-- The `action` that `classify_kind` tests; none for a value that has no hash, for which the test
-- raises TypeError.
unfoldable pub gate_action : String → Fields → Option (Option String)
gate_action core_name arguments =
    if core_name == "inbox_review"
    then (elim (get "action" arguments) [
      | none ↦ some none
      | some (arr _) ↦ none
      | some (obj _) ↦ none
      | some v ↦ some (text_of v)
    ])
    else some none

-- `action or "write"`, which only the dispatcher of `write` takes
write_action : String → Option String → Option String
write_action core_name none = if core_name == "write" then some "write" else none
write_action core_name (some action) =
    if core_name == "write" then some (if action == "" then "write" else action) else none

answer_of : Result Json → Outcome
unfolding to_tool_error
answer_of (ok v) = answer v
answer_of (err e) = refusal (to_tool_error e)

-- The call of the dispatcher
unfoldable pub dispatched :
    Tools → AuthContext → String → Fields → Option String → Db → Outcome × Db
unfolding write_action answer_of
dispatched tools ctx core_name merged_args action db =
    let (r, left) = tools.dispatcher core_name ctx merged_args (write_action core_name action) db in
    (answer_of r, left)

-- The second `try` of the handler
unfoldable pub validated : Tools → AuthContext → String → Fields → Option String → Db → Outcome × Db
unfolding dispatched
validated tools ctx core_name merged_args action db = elim (validate core_name merged_args) [
  | none ↦ dispatched tools ctx core_name merged_args action db
  | some _ ↦ (refusal code_validation, db)
]

unfoldable pub limited :
    Tools
    → AuthContext
    → String
    → Fields
    → Option String
    → RateLimiter
    → Db
    → Verdict
    → Outcome × RateLimiter × Db
unfolding validated
limited tools ctx core_name merged_args action r db accepted =
    let (o, left) = validated tools ctx core_name merged_args action db in (o, r, left)
limited tools ctx core_name merged_args action r db (rate_limited ms) = (back_off ms, r, db)
limited tools ctx core_name merged_args action r db index_error = (escaped, r, db)

-- The first `try`: the role gate, then the limiter
unfoldable pub gated :
    Tools
    → AuthContext
    → ℕ
    → String
    → Fields
    → Option String
    → Option (Option String)
    → RateLimiter
    → Db
    → Outcome × RateLimiter × Db
unfolding limited require_write
gated tools ctx now core_name merged_args action none r db = (escaped, r, db)
gated tools ctx now core_name merged_args action (some a) r db =
    if require_write ctx core_name a
    then (let (read_limit, write_limit) = read_rate_limits ctx.space_id db in
        let (v, r1) =
          check r now (tools.id_text ctx.token_id) (classify_kind core_name a) read_limit
            write_limit in
        limited tools ctx core_name merged_args action r1 db v)
    else (refusal code_role, r, db)

unfoldable pub handle_target :
    Tools → AuthContext → ℕ → Target → RateLimiter → Db → Outcome × RateLimiter × Db
unfolding gated gate_action
handle_target tools ctx now unknown r db = (refusal code_validation, r, db)
handle_target tools ctx now raised r db = (escaped, r, db)
handle_target tools ctx now (tool core_name merged_args action) r db =
    gated tools ctx now core_name merged_args action (gate_action core_name merged_args) r db

-- `now` is the time of the monotonic clock.
unfoldable pub handle_call_tool :
    Tools → AuthContext → ℕ → String → Fields → RateLimiter → Db → Outcome × RateLimiter × Db
unfolding handle_target
handle_call_tool tools ctx now name arguments r db =
    handle_target tools ctx now (resolve_dispatch ctx.space_id db name arguments) r db
