-- ===== src/Server/Aliases.antt =====
-- engraphy/server/aliases.py: a pack's names for core tools with arguments preset. The block is what a
-- pack stores: an object of objects, whose presets are objects.
pub mod Bindings
use engraphy.Base.{
  String, ◌<>◌, Bool, true, false, not, ◌&&◌, Option, none, some, List, [], ◌∷◌, any, find_first,
  ◌==◌, contains, string_eq, if◌then◌else◌,
}
use engraphy.Core.Json.{Json, Fields, end, field, put, keys}

-- `packs.CORE_TOOLS`: the core tools with the names of their arguments
abbrev pub core_tools : List (String × List String)
core_tools =
    ("briefing", "scope" ∷ "hint" ∷ [])
    ∷ ("search", "scope" ∷ "query" ∷ "types" ∷ "limit" ∷ "include_inactive" ∷ "detail" ∷ [])
    ∷ ("traverse", "start_id" ∷ "edge_types" ∷ "direction" ∷ "max_depth" ∷ "limit" ∷ "detail" ∷ [])
    ∷ ("get", "ids" ∷ [])
    ∷ ("write", "scope" ∷ "type" ∷ "title" ∷ "body" ∷ "attrs" ∷ "links" ∷ "session_id" ∷ [])
    ∷ ("link", "edges" ∷ [])
    ∷ ("update", "id" ∷ "title" ∷ "body" ∷ "attrs" ∷ [])
    ∷ (
      "supersede",
      "old_id" ∷ "scope" ∷ "type" ∷ "title" ∷ "body" ∷ "attrs" ∷ "links" ∷ "session_id" ∷ [],
    )
    ∷ ("resolve_duplicate", "pending_id" ∷ "resolution" ∷ "merge_into" ∷ [])
    ∷ ("scope_list", [])
    ∷ ("scope_create", "id" ∷ "display_name" ∷ "confirm" ∷ [])
    ∷ ("inbox_review", "action" ∷ [])
    ∷ []

-- One entry of the block; a preset that is left out is empty.
pub record AliasSpec : Type 0 where
  pub binds : Option String
  pub preset : Fields
  pub description : Option String

pub record AliasBinding : Type 0 where
  pub name : String
  pub binds : String
  pub preset : Fields
  pub description : Option String

-- `cts[binds]`, for `binds` that is a core tool
unfoldable pub arguments_of : Option String → Option (List String)
arguments_of none = none
arguments_of (some tool) = elim (find_first (λ e. e.0 == tool) core_tools) [
  | none ↦ none
  | some e ↦ some e.1
]

unfoldable pub is_core : String → Bool
is_core name = any (λ e. e.0 == name) core_tools

binding_of : String → String → AliasSpec → AliasBinding
binding_of name tool spec = record {
  name = name;
  binds = tool;
  preset = spec.preset;
  description = spec.description;
}

-- One round of the loop of `build_aliases`; none is its ValueError.
bind : String → AliasSpec → Option String → Option (List String) → Option AliasBinding
unfolding is_core binding_of
bind name spec (some tool) (some allowed) =
    if any (λ k. not (contains allowed k)) (keys spec.preset)
    then none
    else if is_core name
    then none
    else some (binding_of name tool spec)
bind name spec _ _ = none

add_binding : Option AliasBinding → Option (List AliasBinding) → Option (List AliasBinding)
add_binding (some b) (some bs) = some (b ∷ bs)
add_binding _ _ = none

-- `build_aliases`, on the entries of the block, whose names differ
unfoldable pub build_aliases : List (String × AliasSpec) → Option (List AliasBinding)
unfolding bind add_binding arguments_of
build_aliases [] = some []
build_aliases ((name, spec) ∷ specs) =
    add_binding (bind name spec spec.binds (arguments_of spec.binds)) (build_aliases specs)

-- `merged.update(preset)`
unfoldable pub update_with : Fields → Fields → Fields
update_with end merged = merged
update_with (field k v preset) merged = update_with preset (put k v merged)

-- `resolve_alias_call`: the core tool, the arguments, and the name for the audit
unfoldable pub resolve_alias_call : AliasBinding → Fields → String × Fields × String
unfolding update_with
resolve_alias_call b caller_args =
    (b.binds, update_with b.preset caller_args, b.binds <> " via " <> b.name)
