-- ===== src/Core/Scopes.antt =====
-- engraphy/core/scopes.py: the list of scopes, the routing guide, and the creation of a scope.
pub mod Owners
use engraphy.Base.{
  ℕ, String, Bool, true, false, not, ◌&&◌, ◌||◌, Option, none, some, List, [], ◌∷◌, ◌++◌, map, any,
  keep, find_first, leb, length, ◌==◌, contains, string_eq, nat_eq, if◌then◌else◌, sort_by,
}
use engraphy.Core.AttrSpec.{codes}
use engraphy.Core.Tx.{
  Tx, validation, check_violation, type_error, pure, gets, modify, or_raise, require, ◌>>=◌, ◌>>◌,
}
use engraphy.Core.Store.{Db, Session, ScopeRow, Visibility, closed, readable_scopes}

-- `_scope_row`
pub record ScopeItem : Type 0 where
  pub id : String
  pub display_name : String
  pub description : Option String
  pub visibility : Visibility
  pub ambient : Bool
  pub hints : List String
  pub owner : String
  pub created_at : ℕ

unfoldable pub scope_item : ScopeRow → ScopeItem
scope_item r = record {
  id = r.id;
  display_name = r.display_name;
  description = r.description;
  visibility = r.visibility;
  ambient = r.ambient;
  hints = r.hints;
  owner = r.owner;
  created_at = r.created_at;
}

-- The policies scopes_read and scopes_admin_read.
unfoldable pub scope_visible : Session → Db → ScopeRow → Bool
scope_visible s db r =
    r.space == s.space
    && (contains (readable_scopes s db) r.id
        || any (λ a. a.space == s.space && a.principal == s.principal) db.admins)

-- `SELECT ... FROM scopes WHERE space_id = ... ORDER BY id`, in the order of the collation
unfoldable pub listed : (String → String → Bool) → Session → Db → List ScopeRow
unfolding scope_visible sort_by
listed before s db = sort_by (λ a b. before a.id b.id) (keep (scope_visible s db) db.scopes)

unfoldable pub scope_list : (String → String → Bool) → Session → Tx Db (List ScopeItem)
unfolding scope_item listed
scope_list before s = gets (λ db. map scope_item (listed before s db))

-- The manifest: id, name and description of each.
unfoldable pub scope_guide :
    (String → String → Bool) → Session → Tx Db (List (String × String × Option String))
unfolding listed
scope_guide before s =
    gets (λ db. map (λ r. (r.id, r.display_name, r.description)) (listed before s db))

-- `[a-z0-9]`
id_char : ℕ → Bool
id_char c = (leb 97 c && leb c 122) || (leb 48 c && leb c 57)

-- The constraint `^[a-z0-9][a-z0-9-]{1,62}$` on the code points.
unfoldable pub scope_id_ok : List ℕ → Bool
unfolding id_char
scope_id_ok [] = false
scope_id_ok (c ∷ cs) =
    (id_char c && not (any (λ d. not (id_char d || d == 45)) cs))
    && (leb 1 (length cs) && leb (length cs) 62)

unfoldable pub new_scope : Session → String → String → String → ℕ → ScopeRow
new_scope s id display_name description now = record {
  space = s.space;
  id = id;
  owner = s.principal;
  visibility = closed;
  ambient = false;
  is_archived = false;
  display_name = display_name;
  description = some description;
  hints = [];
  created_at = now;
}

unfoldable pub append_scope : ScopeRow → Db → Db
append_scope r db = record db { scopes = db.scopes ++ r ∷ [] }

-- The key (space_id, id) is taken, whoever sees the scope.
unfoldable pub is_taken : Session → String → Db → Bool
is_taken s id db = any (λ r. r.space == s.space && r.id == id) db.scopes

-- `SELECT ... FROM scopes WHERE space_id = ... AND id = ...`
unfoldable pub select_scope : Session → String → Db → Option ScopeRow
unfolding scope_visible
select_scope s id db = find_first (λ r. r.id == id && scope_visible s db r) db.scopes

-- `scope_create`, with Python's `str.strip`
unfoldable pub scope_create :
    (String → String) → Session → String → String → String → Bool → Tx Db ScopeItem
unfolding scope_item new_scope append_scope is_taken select_scope scope_id_ok
scope_create strip s id display_name description confirm = do
  require confirm validation
  require (not (description == "") && not (strip description == "")) validation
  require (scope_id_ok (codes id)) check_violation
  taken ← gets (is_taken s id)
  require (not taken) validation
  now ← gets (λ db. db.now)
  modify (append_scope (new_scope s id display_name description now))
  found ← gets (select_scope s id)
  r ← or_raise found type_error
  pure (scope_item r)
