-- ===== src/Server/Auth.antt =====
-- engraphy/server/auth.py: from a bearer token to the identity of a call, and the role gate. The
-- tables that it reads, `api_tokens` and `principals`, are lists of rows; SHA-256 (hashlib) is a
-- parameter.
pub mod Gates
use engraphy.Base.{
  ℕ, String, Bool, true, false, not, ◌&&◌, ◌||◌, Option, none, some, List, [], ◌∷◌, ◌++◌, map, any,
  ◌==◌, contains, find_first, string_eq, nat_eq, if◌then◌else◌,
}
use engraphy.Server.RateLimit.{Kind, reads, writes}

pub record TokenRow : Type 0 where
  pub id : ℕ
  pub space_id : String
  pub principal : String
  pub client_name : String
  pub token_hash : String
  pub role : String
  pub revoked : Bool
  pub no_scope_all : Bool
  pub last_used_at : Option ℕ

pub record PrincipalRow : Type 0 where
  pub space_id : String
  pub id : String
  pub archived : Bool

pub record AuthContext : Type 0 where
  pub token_id : ℕ
  pub space_id : String
  pub principal : String
  pub client_name : String
  pub role : String
  pub no_scope_all : Bool

pub data AuthError : Type 0 where
  missing_bearer unknown_token token_revoked principal_archived role_refused : AuthError

pub data Resolved : Type 0 where
  identity : AuthContext → List TokenRow → Resolved
  unauthorized : AuthError → Resolved

-- `UPDATE api_tokens SET last_used_at = now() WHERE id = ...`
stamp : ℕ → ℕ → List TokenRow → List TokenRow
stamp now id = map (λ r. if r.id == id then record r { last_used_at = some now } else r)

unfoldable pub context_of : TokenRow → AuthContext
context_of r = record {
  token_id = r.id;
  space_id = r.space_id;
  principal = r.principal;
  client_name = r.client_name;
  role = r.role;
  no_scope_all = r.no_scope_all;
}

unfoldable pub use_row : ℕ → List TokenRow → Option TokenRow → Resolved
unfolding stamp context_of
use_row now tokens none = unauthorized unknown_token
use_row now tokens (some r) =
    if r.revoked
    then unauthorized token_revoked
    else identity (context_of r) (stamp now r.id tokens)

unfoldable pub resolve_token : (String → String) → ℕ → List TokenRow → String → Resolved
unfolding use_row
resolve_token hash_token now tokens raw_token =
    if raw_token == ""
    then unauthorized missing_bearer
    else use_row now tokens (find_first (λ r. r.token_hash == hash_token raw_token) tokens)

-- What a mint is asked for.
pub record Grant : Type 0 where
  pub space_id : String
  pub principal : String
  pub client_name : String
  pub role : String
  pub no_scope_all : Bool

unfoldable pub minted_row : ℕ → String → Grant → TokenRow
minted_row id token_hash g = record {
  id = id;
  space_id = g.space_id;
  principal = g.principal;
  client_name = g.client_name;
  token_hash = token_hash;
  role = g.role;
  revoked = false;
  no_scope_all = g.no_scope_all;
  last_used_at = none;
}

-- The constraints of `api_tokens`: the check of the role, the foreign key to `principals`, and one row
-- for each client of a principal
unfoldable pub may_insert : List PrincipalRow → Grant → List TokenRow → Bool
may_insert principals g tokens =
    contains ("readwrite" ∷ "readonly" ∷ []) g.role
    && any (λ p. p.space_id == g.space_id && p.id == g.principal) principals
    && not (
        any
          (λ t.
            (t.space_id == g.space_id && t.principal == g.principal)
            && t.client_name == g.client_name)
          tokens)

-- `raw` is the fresh plaintext and `id` the id of the new row; none is an IntegrityError.
unfoldable pub mint_token :
    (String → String)
    → String
    → ℕ
    → List PrincipalRow
    → Grant
    → List TokenRow
    → Option (String × List TokenRow)
unfolding minted_row may_insert
mint_token hash_token raw id principals g tokens =
    if may_insert principals g tokens
    then some (raw, tokens ++ minted_row id (hash_token raw) g ∷ [])
    else none

-- Whether `require_active_principal` lets the identity pass. A missing row fails closed.
unfoldable pub require_active_principal : List PrincipalRow → AuthContext → Bool
require_active_principal rows ctx =
    elim (find_first (λ r. r.space_id == ctx.space_id && r.id == ctx.principal) rows) [
      | none ↦ false
      | some r ↦ not r.archived
    ]

abbrev pub write_tools : List String
write_tools =
    "write" ∷ "link" ∷ "update" ∷ "supersede" ∷ "resolve_duplicate" ∷ "scope_create"
    ∷ "admin_member_add" ∷ "admin_member_archive" ∷ "admin_token_create" ∷ "admin_scope_visibility"
    ∷ "admin_grant" ∷ "POST /inbox" ∷ []

abbrev pub inbox_write_actions : List String
inbox_write_actions = "promote" ∷ "discard" ∷ []

-- The second argument is the call's `action`, if it has one.
unfoldable pub classify_kind : String → Option String → Kind
classify_kind tool_name action =
    if tool_name == "inbox_review"
    then (elim action [
      | none ↦ reads
      | some a ↦ if contains inbox_write_actions a then writes else reads
    ])
    else if contains write_tools tool_name
    then writes
    else reads

is_write : Kind → Bool
is_write reads = false
is_write writes = true

-- True if the call may go on; false stands for ENGRAPHY_ROLE.
unfoldable pub require_write : AuthContext → String → Option String → Bool
unfolding is_write
require_write ctx tool_name action =
    not (is_write (classify_kind tool_name action) && not (ctx.role == "readwrite"))
