-- ===== src/Server/Registry.antt =====
-- engraphy/server/tool_registry.py: the tools of a space and the core tool behind a name. A config row
-- holds what a pack was stored with; presets are stored as objects, as `packs.validate` requires.
pub mod Resolves
pub mod Listed
use engraphy.Base.{
  String, Bool, true, false, not, ◌&&◌, Option, none, some, List, [], ◌∷◌, ◌++◌, map, ℤ, pos,
  nat_eq, find_first, ◌==◌, contains, string_eq, if◌then◌else◌,
}
use engraphy.Core.Json.{Json, null, bool, int, float, str, arr, obj, nil, Fields, end, field, get}
use engraphy.Core.AttrSpec.{text_of}
use engraphy.Core.Store.{Db, ConfigRow}
use engraphy.Server.Aliases.{AliasSpec, AliasBinding, build_aliases, resolve_alias_call}

-- The names of `CORE_DISPATCH`
abbrev pub core_dispatch : List String
core_dispatch =
    "write" ∷ "resolve_duplicate" ∷ "update" ∷ "link" ∷ "supersede" ∷ "get" ∷ "search" ∷ "traverse"
    ∷ "briefing" ∷ "pending_list" ∷ "stats" ∷ "inbox_review" ∷ "scope_list" ∷ "scope_guide"
    ∷ "scope_create" ∷ []

-- The names of `ADMIN_DISPATCH`
abbrev pub admin_dispatch : List String
admin_dispatch =
    "admin_member_add" ∷ "admin_member_archive" ∷ "admin_token_create" ∷ "admin_scope_visibility"
    ∷ "admin_grant" ∷ []

-- `SELECT value FROM config WHERE space_id = ... AND key = ...`
unfoldable pub config_value : String → String → List ConfigRow → Option Json
config_value space key rows = elim (find_first (λ r. r.space == space && r.key == key) rows) [
  | none ↦ none
  | some r ↦ some r.value
]

is_zero : ℤ → Bool
is_zero (pos n) = n == 0
is_zero _ = false

-- `value in (False, "false")`; 0 and 0.0 are equal to False.
is_off : Json → Bool
unfolding is_zero
is_off (bool b) = not b
is_off (int n) = is_zero n
is_off (float s m k) = m == 0
is_off (str s) = s == "false"
is_off _ = false

unfoldable pub admin_tools_enabled : String → Db → Bool
unfolding config_value is_off
admin_tools_enabled space db = elim (config_value space "space_admin_tools" db.config) [
  | none ↦ true
  | some v ↦ not (is_off v)
]

-- The object of a value that may be missing or falsy; none where `.items()` raises.
unfoldable pub object_of : Option Json → Option Fields
unfolding is_zero
object_of none = some end
object_of (some null) = some end
object_of (some (bool b)) = if b then none else some end
object_of (some (int n)) = if is_zero n then some end else none
object_of (some (float s m k)) = if m == 0 then some end else none
object_of (some (str s)) = if s == "" then some end else none
object_of (some (arr nil)) = some end
object_of (some (arr _)) = none
object_of (some (obj d)) = some d

text_at : String → Fields → Option String
text_at k d = elim (get k d) [ none ↦ none | some v ↦ text_of v ]

-- One entry of the stored block
alias_spec : Json → Option AliasSpec
unfolding text_at object_of
alias_spec (obj d) = elim (object_of (get "preset" d)) [
  | none ↦ none
  | some preset ↦
      some (record {
        binds = text_at "binds" d;
        preset = preset;
        description = text_at "description" d;
      })
]
alias_spec _ = none

add_spec :
    String
    → Option AliasSpec
    → Option (List (String × AliasSpec))
    → Option (List (String × AliasSpec))
add_spec name (some spec) (some specs) = some ((name, spec) ∷ specs)
add_spec name _ _ = none

alias_specs : Fields → Option (List (String × AliasSpec))
unfolding alias_spec add_spec
alias_specs end = some []
alias_specs (field name v d) = add_spec name (alias_spec v) (alias_specs d)

-- `load_aliases`; none where it raises
unfoldable pub load_aliases : String → Db → Option (List AliasBinding)
unfolding alias_specs config_value object_of build_aliases
load_aliases space db = elim (object_of (config_value space "pack.tool_aliases" db.config)) [
  | none ↦ none
  | some fragment ↦ elim (alias_specs fragment) [ none ↦ none | some specs ↦ build_aliases specs ]
]

-- The names that `list_tools_for_space` lists, first those of the engine
unfoldable pub tool_names : String → Db → List String
unfolding admin_tools_enabled
tool_names space db = core_dispatch ++ (if admin_tools_enabled space db then admin_dispatch else [])

unfoldable pub listing : List String → Option (List AliasBinding) → Option (List (String × String))
listing own none = none
listing own (some bs) = some (map (λ n. (n, n)) own ++ map (λ b. (b.name, b.binds)) bs)

-- `list_tools_for_space`: each listed name with the core tool whose schema it has
unfoldable pub list_tools_for_space : String → Db → Option (List (String × String))
unfolding tool_names load_aliases listing
list_tools_for_space space db = listing (tool_names space db) (load_aliases space db)

-- What a name stands for: nothing, a core tool with its arguments and the action for the audit, or
-- an error that leaves `resolve_dispatch`.
pub data Target : Type 0 where
  unknown : Target
  tool : String → Fields → Option String → Target
  raised : Target

-- `resolve_alias_call`, and the action, which only a write has
unfoldable pub alias_target : Fields → Option AliasBinding → Target
unfolding resolve_alias_call
alias_target arguments none = unknown
alias_target arguments (some b) =
    let (core_name, merged_args, audit_identity) = resolve_alias_call b arguments in
    tool core_name merged_args (if core_name == "write" then some audit_identity else none)

-- `bindings.get(tool_name)` and what follows
unfoldable pub aliased : Fields → String → Option (List AliasBinding) → Target
unfolding alias_target
aliased arguments tool_name none = raised
aliased arguments tool_name (some bs) =
    alias_target arguments (find_first (λ b. b.name == tool_name) bs)

unfoldable pub resolve_dispatch : String → Db → String → Fields → Target
unfolding admin_tools_enabled load_aliases aliased
resolve_dispatch space db tool_name arguments =
    if contains core_dispatch tool_name
    then tool tool_name arguments none
    else if contains admin_dispatch tool_name
    then (if admin_tools_enabled space db then tool tool_name arguments none else unknown)
    else aliased arguments tool_name (load_aliases space db)
