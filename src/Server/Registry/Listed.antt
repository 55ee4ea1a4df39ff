-- ===== src/Server/Registry/Listed.antt =====
-- engraphy/server/tool_registry.py: the tools that are listed are those that a call can reach.
use mathlib.Core.Option.{some-injective}
use engraphy.Base.{
  String, ◌≡◌, refl, sym, ap, ◌∙◌, Bool, true, false, not, ◌&&◌, ◌||◌, none, some, inl, inr, List,
  [], ◌∷◌, ◌++◌, map, find_first, ◌==◌, contains, string_eq, if◌then◌else◌, arith, Option-cases,
  ==-eq, contains-append,
}
use engraphy.Core.Json.{Fields}
use engraphy.Core.Store.{Db}
use engraphy.Server.Aliases.{AliasBinding}
use engraphy.Server.Registry.{
  core_dispatch, admin_dispatch, admin_tools_enabled, tool_names, load_aliases, listing,
  list_tools_for_space, Target, unknown, tool, raised, alias_target, aliased, resolve_dispatch,
}

-- Whether a call finds a tool.
pub is_tool : Target → Bool
is_tool (tool _ _ _) = true
is_tool unknown = false
is_tool raised = false

abbrev pub names : List (String × String) → List String
names [] = []
names ((name, core) ∷ entries) = name ∷ names entries

entries_of : List String → List AliasBinding → List (String × String)
entries_of own bs = map (λ n. (n, n)) own ++ map (λ b. (b.name, b.binds)) bs

contains-aliases :
    (bs : List AliasBinding) (arguments : Fields) (name : String)
    → contains (names (entries_of [] bs)) name
      ≡ is_tool (alias_target arguments (find_first (λ b. b.name == name) bs))
unfolding entries_of alias_target is_tool
contains-aliases [] arguments name = refl
contains-aliases (b ∷ bs) arguments name =
    ground (arith, contains-aliases bs arguments name, ==-eq b.name name, ==-eq name b.name)

contains-entries :
    (own : List String) (bs : List AliasBinding) (arguments : Fields) (name : String)
    → contains (names (entries_of own bs)) name ≡ (
        contains own name || is_tool (alias_target arguments (find_first (λ b. b.name == name) bs)))
unfolding entries_of
contains-entries [] bs arguments name = contains-aliases bs arguments name
contains-entries (n ∷ own) bs arguments name =
    ground (arith, contains-entries own bs arguments name)

contains-if :
    (on : Bool) (own : List String) (name : String)
    → contains (if on then own else []) name ≡ (on && contains own name)
contains-if true own name = refl
contains-if false own name = refl

-- The tests of `resolve_dispatch`, against those of the list.
reached :
    (core admin on : Bool) (t via : Target)
    → is_tool t ≡ true
    → is_tool (if core then t else if admin then (if on then t else unknown) else via)
      ≡ (((core || (on && admin)) || is_tool via) && (core || not (admin && not on)))
unfolding is_tool
reached true admin on t via found = found
reached false true true t via found = found
reached false true false t via found = ground arith
reached false false true t via found = ground arith
reached false false false t via found = ground arith

-- The name is that of an administrator's tool, of no other tool of the server's own, and the space
-- switched the administrator's tools off.
pub switched_off : String → Db → String → Bool
switched_off space db name =
    not (contains core_dispatch name)
    && (contains admin_dispatch name && not (admin_tools_enabled space db))

apart : (a b : Bool) → (a || not b) ≡ not (not a && b)
apart true b = refl
apart false b = refl

tool_names-resolve_dispatch :
    (space : String) (db : Db) (bs : List AliasBinding) (name : String) (arguments : Fields)
    → load_aliases space db ≡ some bs
    → is_tool (resolve_dispatch space db name arguments) ≡ (
        (contains (tool_names space db) name
          || is_tool (alias_target arguments (find_first (λ b. b.name == name) bs)))
        && not (switched_off space db name))
unfolding tool_names resolve_dispatch aliased is_tool switched_off
tool_names-resolve_dispatch space db bs name arguments loaded =
    let via = alias_target arguments (find_first (λ b. b.name == name) bs) in
    let on = admin_tools_enabled space db in
    ap
      (λ found. is_tool (
        if contains core_dispatch name
        then tool name arguments none
        else if contains admin_dispatch name
        then (if on then tool name arguments none else unknown)
        else aliased arguments name found))
      loaded
    ∙ reached (contains core_dispatch name) (contains admin_dispatch name) on
        (tool name arguments none) via refl
    ∙ ap
        (λ b.
          (b || is_tool via)
          && (contains core_dispatch name || not (contains admin_dispatch name && not on)))
        (sym (
          contains-append core_dispatch (if on then admin_dispatch else []) name
          ∙ ap (λ b. contains core_dispatch name || b) (contains-if on admin_dispatch name)))
    ∙ ap (λ b. (contains (tool_names space db) name || is_tool via) && b)
        (apart (contains core_dispatch name) (contains admin_dispatch name && not on))

-- If the list of a space's tools can be made, a call of a name finds a tool just if the name is
-- listed and is not that of an administrator's tool of a space that switched these off. Such a name
-- is never found: an alias may have it, and it is then listed all the same.
pub list_tools-resolve_dispatch :
    (space : String) (db : Db) (entries : List (String × String)) (name : String)
    (arguments : Fields)
    → list_tools_for_space space db ≡ some entries
    → is_tool (resolve_dispatch space db name arguments)
      ≡ (contains (names entries) name && not (switched_off space db name))
unfolding list_tools_for_space listing entries_of
list_tools-resolve_dispatch space db entries name arguments h =
    elim (Option-cases (load_aliases space db)) [
      | inl bad ↦ absurd (ground (arith, bad, h))
      | inr (bs, loaded) ↦
          let e : entries_of (tool_names space db) bs ≡ entries =
            some-injective _ _ (sym (ap (listing (tool_names space db)) loaded) ∙ h) in
          tool_names-resolve_dispatch space db bs name arguments loaded
          ∙ ap (λ b. b && not (switched_off space db name))
              (sym (contains-entries (tool_names space db) bs arguments name)
                ∙ ap (λ l. contains (names l) name) e)
    ]
