-- ===== src/Tests/Calls.antt =====
-- Calls of tools on a small space with an alias, and the theorems on them at concrete inputs.
use engraphy.Base.{
  ℕ, ◌≤◌, String, ◌≡◌, refl, ◌⊎◌, Bool, ◌&&◌, not, contains, string_eq, true, false, Option, none,
  some, List, [], ◌∷◌, ℤ, pos,
}
use engraphy.Core.Json.{Json, Fields, end, field, str, obj, int}
use engraphy.Core.Tx.{ok}
use engraphy.Core.Store.{Db}
use engraphy.Server.Auth.{AuthContext}
use engraphy.Server.RateLimit.{RateLimiter, no_events, put_bucket, writes}
use engraphy.Server.Wire.{spec_of, write_fields}
use engraphy.Server.Wire.Validate.{validate}
use engraphy.Server.Wire.Validate.Accepts.{IsWellFormed, validate-IsWellFormed}
use engraphy.Server.Registry.Listed.{names, is_tool, switched_off, list_tools-resolve_dispatch}
use engraphy.Server.Registry.{tool, resolve_dispatch, list_tools_for_space}
use engraphy.Server.Registry.Resolves.{IsOwn, IsAliased, resolve_dispatch-IsTool}
use engraphy.Server.Funnel.{Tools, answer, handle_call_tool}
use engraphy.Server.Funnel.Passes.{Handled, Turned, handle_call_tool-Handled}
use engraphy.Tests.Samples.{db}

-- A pack's alias `remember` for `write`, with the type preset
abbrev pack_db : Db
pack_db = record db {
  config =
      record {
        space = "main";
        key = "pack.tool_aliases";
        value = obj (
            field "remember"
              (obj (
                field "binds" (str "write")
                  (field "preset" (obj (field "type" (str "note") end)) end)))
              end);
      }
      ∷ [];
}

abbrev alice : AuthContext
alice = record {
  token_id = 1;
  space_id = "main";
  principal = "alice";
  client_name = "laptop";
  role = "readwrite";
  no_scope_all = false;
}

abbrev tools : Tools
tools = record {
  dispatcher = λ name ctx arguments action d. (ok (str name), d);
  id_text = λ id. "token";
}

abbrev caller_args : Fields
caller_args = field "scope" (str "home") (
    field "title" (str "The oven")
      (field "body" (str "It runs hot.") (field "type" (str "task") end)))

abbrev merged_args : Fields
merged_args = field "scope" (str "home") (
    field "title" (str "The oven")
      (field "body" (str "It runs hot.") (field "type" (str "note") end)))

remember_target :
    resolve_dispatch "main" pack_db "remember" caller_args
    ≡ tool "write" merged_args (some "write via remember")
unfolding resolve_dispatch engraphy.Base.string_eq engraphy.Core.Json.get engraphy.Core.Json.keys
    engraphy.Core.Json.put
remember_target = refl

merged_valid : validate "write" merged_args ≡ none
unfolding validate spec_of engraphy.Base.string_eq engraphy.Core.Json.sorted engraphy.Core.Json.keys
    engraphy.Server.Wire.arg_of engraphy.Core.Json.get engraphy.Core.Json.has
merged_valid = refl

write_surface : spec_of "write" ≡ some write_fields
unfolding spec_of engraphy.Base.string_eq
write_surface = refl

validate-IsWellFormed_example : IsWellFormed write_fields merged_args
validate-IsWellFormed_example =
    validate-IsWellFormed "write" write_fields merged_args write_surface merged_valid

resolve_dispatch-IsTool_example :
    IsOwn "main" pack_db "remember" caller_args "write" merged_args (some "write via remember")
    ⊎ IsAliased "main" pack_db "remember" caller_args "write" merged_args
        (some "write via remember")
resolve_dispatch-IsTool_example =
    resolve_dispatch-IsTool "main" pack_db "remember" caller_args "write" merged_args
      (some "write via remember") remember_target

abbrev after_call : RateLimiter
after_call = put_bucket no_events "token" writes (5 ∷ [])

remember_run :
    handle_call_tool tools alice 5 "remember" caller_args no_events pack_db
    ≡ (answer (str "write"), after_call, pack_db)
unfolding handle_call_tool resolve_dispatch string_eq engraphy.Core.Json.get engraphy.Core.Json.keys
    engraphy.Server.Auth.classify_kind engraphy.Server.RateLimit.check
    engraphy.Server.Limits.read_rate_limits validate spec_of engraphy.Core.Json.sorted
    engraphy.Core.Json.put engraphy.Server.Wire.arg_of engraphy.Core.Json.has
remember_run = refl

handle_call_tool-Handled_example :
    Handled tools alice 5 "remember" caller_args no_events pack_db
      (answer (str "write"))
      after_call
      pack_db
    ⊎ Turned pack_db (answer (str "write")) pack_db
handle_call_tool-Handled_example =
    handle_call_tool-Handled tools alice 5 "remember" caller_args no_events pack_db
      (answer (str "write")) after_call pack_db remember_run

abbrev listed_tools : List (String × String)
listed_tools =
    ("write", "write")
    ∷ ("resolve_duplicate", "resolve_duplicate")
    ∷ ("update", "update")
    ∷ ("link", "link")
    ∷ ("supersede", "supersede")
    ∷ ("get", "get")
    ∷ ("search", "search")
    ∷ ("traverse", "traverse")
    ∷ ("briefing", "briefing")
    ∷ ("pending_list", "pending_list")
    ∷ ("stats", "stats")
    ∷ ("inbox_review", "inbox_review")
    ∷ ("scope_list", "scope_list")
    ∷ ("scope_guide", "scope_guide")
    ∷ ("scope_create", "scope_create")
    ∷ ("admin_member_add", "admin_member_add")
    ∷ ("admin_member_archive", "admin_member_archive")
    ∷ ("admin_token_create", "admin_token_create")
    ∷ ("admin_scope_visibility", "admin_scope_visibility")
    ∷ ("admin_grant", "admin_grant")
    ∷ ("remember", "write")
    ∷ []

listed_run : list_tools_for_space "main" pack_db ≡ some listed_tools
unfolding list_tools_for_space string_eq engraphy.Core.Json.get engraphy.Core.Json.keys
listed_run = refl

list_tools-resolve_dispatch_example :
    is_tool (resolve_dispatch "main" pack_db "remember" caller_args)
    ≡ (contains (names listed_tools) "remember" && not (switched_off "main" pack_db "remember"))
list_tools-resolve_dispatch_example =
    list_tools-resolve_dispatch "main" pack_db listed_tools "remember" caller_args listed_run
