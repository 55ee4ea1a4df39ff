-- ===== src/Server/Wire.antt =====
-- engraphy/server/wire_types.py: the arguments that the server accepts. A message is the data that it
-- names; `$` of the pattern for ids also matches before a newline that ends the text.
pub mod Validate
use engraphy.Base.{
  ℕ, zero, suc, ◌^◌, ◌%◌, String, Bool, true, false, not, ◌&&◌, ◌||◌, Option, none, some, List, [],
  ◌∷◌, ◌++◌, map, any, leb, ◌==◌, contains, find_first, keep, string_eq, nat_eq, option_eq,
  if◌then◌else◌,
}
use engraphy.Core.Json.{
  Json, null, bool, int, float, str, arr, obj, Items, nil, cons, Fields, end, field, get, has, keys,
  sorted,
}
use engraphy.Core.AttrSpec.{codes, text_of}

-- The constants STRING to ARRAY_OF_LINK_ITEMS.
pub data WireType : Type 0 where
  string integer boolean object array_of_string array_of_uuid array_of_link_items : WireType

-- `required`: True, False, or one of the three functions of the arguments.
pub data Required : Type 0 where
  always never : Required
  when : (Fields → Bool) → Required

pub record Arg : Type 0 where
  pub json_type : WireType
  pub required : Required
  pub enum : Option (List String)
  pub uuid : Bool

-- `arguments.get(key) == value`
unfoldable pub is_text : String → String → Fields → Bool
is_text key value arguments = elim (get key arguments) [
  | none ↦ false
  | some v ↦ text_of v == some value
]

unfoldable pub merge_into_required : Fields → Bool
unfolding is_text
merge_into_required = is_text "resolution" "merge"

unfoldable pub inbox_promote_only : Fields → Bool
unfolding is_text
inbox_promote_only = is_text "action" "promote"

unfoldable pub inbox_id_required : Fields → Bool
unfolding is_text
inbox_id_required arguments =
    is_text "action" "promote" arguments || is_text "action" "discard" arguments

-- `Arg(json_type)`, and with `required`, an enumeration, or as an id
abbrev pub arg : WireType → Required → Arg
arg t r = record { json_type = t; required = r; enum = none; uuid = false }

abbrev pub one_of : Required → List String → Arg
one_of r values = record { json_type = string; required = r; enum = some values; uuid = false }

abbrev pub id_arg : Required → Arg
id_arg r = record { json_type = string; required = r; enum = none; uuid = true }

abbrev pub Surface : Type 0
Surface = List (String × Arg)

abbrev pub write_fields : Surface
write_fields =
    ("scope", arg string always)
    ∷ ("type", arg string always)
    ∷ ("title", arg string always)
    ∷ ("body", arg string always)
    ∷ ("attrs", arg object never)
    ∷ ("links", arg array_of_link_items never)
    ∷ ("session_id", arg string never)
    ∷ []

-- `SPEC`, the tools that read
abbrev read_spec : List (String × Surface)
read_spec =
    ("briefing", ("scope", arg string always) ∷ ("hint", arg string never) ∷ [])
    ∷ (
      "search",
      ("scope", arg string always)
          ∷ ("query", arg string always)
          ∷ ("types", arg array_of_string never)
          ∷ ("limit", arg integer never)
          ∷ ("include_inactive", arg boolean never)
          ∷ ("detail", one_of never ("full" ∷ "summary" ∷ []))
          ∷ [],
    )
    ∷ (
      "traverse",
      ("start_id", id_arg always)
          ∷ ("direction", one_of always ("out" ∷ "in" ∷ "both" ∷ []))
          ∷ ("edge_types", arg array_of_string never)
          ∷ ("max_depth", arg integer never)
          ∷ ("limit", arg integer never)
          ∷ ("detail", one_of never ("summary" ∷ "full" ∷ []))
          ∷ [],
    )
    ∷ ("get", ("ids", arg array_of_uuid always) ∷ [])
    ∷ ("pending_list", ("limit", arg integer never) ∷ ("offset", arg integer never) ∷ [])
    ∷ (
      "stats",
      ("range_days", arg integer never) ∷ ("group_by", one_of never ("space" ∷ "user" ∷ [])) ∷ [],
    )
    ∷ ("scope_list", [])
    ∷ ("scope_guide", [])
    ∷ []

-- `SPEC`, the tools that write
abbrev write_spec : List (String × Surface)
unfolding merge_into_required inbox_promote_only inbox_id_required
write_spec =
    ("write", write_fields)
    ∷ ("supersede", ("old_id", id_arg always) ∷ write_fields)
    ∷ (
      "update",
      ("id", id_arg always)
          ∷ ("title", arg string never)
          ∷ ("body", arg string never)
          ∷ ("attrs", arg object never)
          ∷ [],
    )
    ∷ ("link", ("edges", arg array_of_link_items always) ∷ [])
    ∷ (
      "resolve_duplicate",
      ("pending_id", id_arg always)
          ∷ ("resolution", one_of always ("distinct" ∷ "merge" ∷ []))
          ∷ ("merge_into", id_arg (when merge_into_required))
          ∷ [],
    )
    ∷ (
      "scope_create",
      ("id", arg string always)
          ∷ ("display_name", arg string always)
          ∷ ("description", arg string always)
          ∷ ("confirm", arg boolean never)
          ∷ [],
    )
    ∷ (
      "inbox_review",
      ("action", one_of always ("list" ∷ "promote" ∷ "discard" ∷ []))
          ∷ ("limit", arg integer never)
          ∷ ("offset", arg integer never)
          ∷ ("id", id_arg (when inbox_id_required))
          ∷ ("type", arg string (when inbox_promote_only))
          ∷ ("scope", arg string (when inbox_promote_only))
          ∷ ("title", arg string (when inbox_promote_only))
          ∷ ("body", arg string (when inbox_promote_only))
          ∷ ("attrs", arg object never)
          ∷ ("links", arg array_of_link_items never)
          ∷ ("session_id", arg string never)
          ∷ [],
    )
    ∷ []

-- `SPEC`, the tools of a space's administrator
abbrev admin_spec : List (String × Surface)
admin_spec =
    (
      "admin_member_add",
      ("id", arg string always)
          ∷ ("display_name", arg string always)
          ∷ ("role", one_of never ("member" ∷ "space_admin" ∷ []))
          ∷ [],
    )
    ∷ ("admin_member_archive", ("id", arg string always) ∷ ("archived", arg boolean never) ∷ [])
    ∷ (
      "admin_token_create",
      ("principal", arg string always)
          ∷ ("client_name", arg string always)
          ∷ ("role", one_of always ("readwrite" ∷ "readonly" ∷ []))
          ∷ ("no_scope_all", arg boolean never)
          ∷ [],
    )
    ∷ (
      "admin_scope_visibility",
      ("scope_id", arg string always)
          ∷ ("visibility", one_of always ("private" ∷ "team-read" ∷ "team-write" ∷ []))
          ∷ [],
    )
    ∷ (
      "admin_grant",
      ("scope_id", arg string always)
          ∷ ("principal", arg string always)
          ∷ ("level", one_of always ("read" ∷ "write" ∷ []))
          ∷ [],
    )
    ∷ []

-- `SPEC.get(core_name)`
unfoldable pub spec_of : String → Option Surface
unfolding write_spec
spec_of core_name =
    elim (find_first (λ e. e.0 == core_name) (read_spec ++ write_spec ++ admin_spec)) [
      | none ↦ none
      | some e ↦ some e.1
    ]

-- `spec[name]`
unfoldable pub arg_of : String → Surface → Option Arg
arg_of name spec = elim (find_first (λ e. e.0 == name) spec) [ none ↦ none | some e ↦ some e.1 ]

-- `is_required`
unfoldable pub is_required : Required → Fields → Bool
is_required always arguments = true
is_required never arguments = false
is_required (when needs) arguments = needs arguments
