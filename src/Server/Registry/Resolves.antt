-- ===== src/Server/Registry/Resolves.antt =====
-- engraphy/server/tool_registry.py: what a name of a call stands for.
use mathlib.Core.Path.{subst}
use engraphy.Base.{
  In-contains, contains-append, or_true, ◌||◌, ◌++◌, ◌<>◌, find_first, String, ◌≡◌, refl, sym, ap,
  ◌∙◌, ◌⊎◌, Bool, true, false, Option, none, some, List, [], All, All-In, In, In-find_first, inl,
  inr, ◌==◌, contains, string_eq, if◌then◌else◌, arith, Bool-cases, Option-cases, ==-eq,
}
use engraphy.Core.Json.{Fields}
use engraphy.Core.Store.{Db}
use engraphy.Server.Aliases.{
  core_tools, arguments_of, AliasBinding, update_with, resolve_alias_call,
}
use engraphy.Server.Aliases.Bindings.{IsSound, build_aliases-IsSound}
use engraphy.Server.Wire.{Surface, spec_of}
use engraphy.Server.Registry.{
  core_dispatch, admin_dispatch, admin_tools_enabled, object_of, config_value, alias_specs,
  tool_names, load_aliases, unknown, tool, alias_target, resolve_dispatch,
}

load_aliases-IsSound :
    (space : String) (db : Db) (bs : List AliasBinding)
    → load_aliases space db ≡ some bs
    → All IsSound bs
unfolding load_aliases
load_aliases-IsSound space db bs loaded =
    elim (Option-cases (object_of (config_value space "pack.tool_aliases" db.config))) [
      | inl bad ↦ absurd (ground (arith, bad, loaded))
      | inr (fragment, good) ↦ elim (Option-cases (alias_specs fragment)) [
        | inl bad ↦ absurd (ground (arith, good, bad, loaded))
        | inr (specs, read) ↦ build_aliases-IsSound specs bs (ground (arith, good, read, loaded))
      ]
    ]

-- The action under which the audit has a call of an alias.
pub audit_of : String → String → Option String
audit_of core name = if core == "write" then some (core <> " via " <> name) else none

-- The tool that an alias of the space binds, with the alias's own arguments for it and its name in
-- the audit of a write.
pub record IsAliased (space : String) (db : Db) (name : String) (arguments : Fields) (core : String)
    (merged : Fields) (action : Option String) : Type 0 where
  pub binding : AliasBinding
  pub loaded : (bs : List AliasBinding) × (load_aliases space db ≡ some bs) × In binding bs
  pub named : binding.name ≡ name
  pub bound : binding.binds ≡ core
  pub sound : IsSound binding
  pub preset_last : merged ≡ update_with binding.preset arguments
  pub audited : action ≡ audit_of core name

-- A tool of the engine under its own name, with the arguments as they came.
pub record IsOwn (space : String) (db : Db) (name : String) (arguments : Fields) (core : String)
    (merged : Fields) (action : Option String) : Type 0 where
  pub listed : contains (tool_names space db) name ≡ true
  pub same_name : name ≡ core
  pub same_arguments : arguments ≡ merged
  pub no_action : none ≡ action

core-listed :
    (space : String) (db : Db) (name : String)
    → contains core_dispatch name ≡ true
    → contains (tool_names space db) name ≡ true
unfolding tool_names
core-listed space db name own =
    contains-append core_dispatch (if admin_tools_enabled space db then admin_dispatch else []) name
    ∙ ap (λ b. b || contains (if admin_tools_enabled space db then admin_dispatch else []) name) own

admin-listed :
    (space : String) (db : Db) (name : String)
    → contains admin_dispatch name ≡ true
    → admin_tools_enabled space db ≡ true
    → contains (tool_names space db) name ≡ true
unfolding tool_names
admin-listed space db name admin on =
    contains-append core_dispatch (if admin_tools_enabled space db then admin_dispatch else []) name
    ∙ ap (λ b. contains core_dispatch name || contains (if b then admin_dispatch else []) name) on
    ∙ ap (λ b. contains core_dispatch name || b) admin
    ∙ or_true (contains core_dispatch name)

module _ (space : String) (db : Db) (name : String) (arguments : Fields) where
  by_binding :
      (bs : List AliasBinding) (b : AliasBinding) (core : String) (merged : Fields)
      (action : Option String)
      → load_aliases space db ≡ some bs
      → In b bs
      → b.name ≡ name
      → alias_target arguments (some b) ≡ tool core merged action
      → IsAliased space db name arguments core merged action
  unfolding alias_target resolve_alias_call audit_of
  by_binding bs b core merged action loaded here named h =
      let e : tool b.binds (update_with b.preset arguments) (audit_of b.binds b.name)
          ≡ tool core merged action =
        h in
      let bound : b.binds ≡ core = cc in
      let done : update_with b.preset arguments ≡ merged = cc in
      let said : (audit_of b.binds b.name) ≡ action = cc in
      record {
        binding = b;
        loaded = (bs, loaded, here);
        named = named;
        bound = bound;
        sound = All-In IsSound b bs here (load_aliases-IsSound space db bs loaded);
        preset_last = sym done;
        audited = sym said ∙ ap (λ t. audit_of t b.name) bound ∙ ap (audit_of core) named;
      }

  by_alias :
      (bs : List AliasBinding) (core : String) (merged : Fields) (action : Option String)
      → load_aliases space db ≡ some bs
      → alias_target arguments (find_first (λ b. b.name == name) bs) ≡ tool core merged action
      → IsAliased space db name arguments core merged action
  unfolding alias_target
  by_alias bs core merged action loaded h =
      elim (Option-cases (find_first (λ b. b.name == name) bs)) [
        | inl missing ↦
            let e : unknown ≡ tool core merged action =
              sym (ap (alias_target arguments) missing) ∙ h in
            absurd (cc)
        | inr (b, found) ↦
            let (here, same) = In-find_first (λ b. b.name == name) b bs found in
            by_binding bs b core merged action loaded here (==-eq _ _ same)
              (sym (ap (alias_target arguments) found) ∙ h)
      ]

  -- If a call of `name` with `arguments` stands for the tool `core` with the arguments `merged`, then
  -- either `name` is that tool, one of the listed tools of the engine, with the caller's arguments and
  -- no action of its own, or it is an alias of the space for it. The alias has no name of a core tool,
  -- binds a core tool and presets declared arguments of that tool only; the caller's arguments are
  -- updated with the preset; a write is audited as `write via` the alias, any other tool is not.
  pub resolve_dispatch-IsTool :
      (core : String) (merged : Fields) (action : Option String)
      → resolve_dispatch space db name arguments ≡ tool core merged action
      → IsOwn space db name arguments core merged action
        ⊎ IsAliased space db name arguments core merged action
  unfolding resolve_dispatch
  resolve_dispatch-IsTool core merged action h = elim (Bool-cases (contains core_dispatch name)) [
    | inl own ↦ inl (record {
      listed = core-listed space db name own;
      same_name = ground (arith, own, h);
      same_arguments = ground (arith, own, h);
      no_action = ground (arith, own, h);
    })
    | inr no_core ↦ elim (Bool-cases (contains admin_dispatch name)) [
      | inl admin ↦ elim (Bool-cases (admin_tools_enabled space db)) [
        | inl on ↦ inl (record {
          listed = admin-listed space db name admin on;
          same_name = ground (arith, no_core, admin, on, h);
          same_arguments = ground (arith, no_core, admin, on, h);
          no_action = ground (arith, no_core, admin, on, h);
        })
        | inr off ↦ absurd (ground (arith, no_core, admin, off, h))
      ]
      | inr no_admin ↦ elim (Option-cases (load_aliases space db)) [
        | inl bad ↦ absurd (ground (arith, no_core, no_admin, bad, h))
        | inr (bs, loaded) ↦
            inr
              (by_alias bs core merged action loaded (ground (arith, no_core, no_admin, loaded, h)))
      ]
    ]
  ]

-- The engine enforces a surface for the tool.
abbrev pub HasSurface : String → Type 0
HasSurface core = (spec : Surface) × (spec_of core ≡ some spec)

own-HasSurface : (on : Bool) → All HasSurface (core_dispatch ++ (if on then admin_dispatch else []))
unfolding spec_of string_eq
own-HasSurface true = (
  (_, refl),
  (
    (_, refl),
    (
      (_, refl),
      (
        (_, refl),
        (
          (_, refl),
          (
            (_, refl),
            (
              (_, refl),
              (
                (_, refl),
                (
                  (_, refl),
                  (
                    (_, refl),
                    (
                      (_, refl),
                      (
                        (_, refl),
                        (
                          (_, refl),
                          (
                            (_, refl),
                            (
                              (_, refl),
                              ((_, refl), ((_, refl), ((_, refl), ((_, refl), ((_, refl), tt))))),
                            ),
                          ),
                        ),
                      ),
                    ),
                  ),
                ),
              ),
            ),
          ),
        ),
      ),
    ),
  ),
)
own-HasSurface false = (
  (_, refl),
  (
    (_, refl),
    (
      (_, refl),
      (
        (_, refl),
        (
          (_, refl),
          (
            (_, refl),
            (
              (_, refl),
              (
                (_, refl),
                (
                  (_, refl),
                  ((_, refl), ((_, refl), ((_, refl), ((_, refl), ((_, refl), ((_, refl), tt)))))),
                ),
              ),
            ),
          ),
        ),
      ),
    ),
  ),
)

core_tools-HasSurface : All (λ e. HasSurface e.0) core_tools
unfolding spec_of string_eq
core_tools-HasSurface = (
  (_, refl),
  (
    (_, refl),
    (
      (_, refl),
      (
        (_, refl),
        (
          (_, refl),
          (
            (_, refl),
            ((_, refl), ((_, refl), ((_, refl), ((_, refl), ((_, refl), ((_, refl), tt)))))),
          ),
        ),
      ),
    ),
  ),
)

bound-HasSurface :
    (core : String) (allowed : List String)
    → arguments_of (some core) ≡ some allowed
    → HasSurface core
unfolding arguments_of
bound-HasSurface core allowed h = elim (Option-cases (find_first (λ e. e.0 == core) core_tools)) [
  | inl missing ↦ absurd (ground (arith, missing, h))
  | inr (e, found) ↦
      let (here, same) = In-find_first (λ e. e.0 == core) e core_tools found in
      subst HasSurface (==-eq _ _ same)
        (All-In (λ e. HasSurface e.0) e core_tools here core_tools-HasSurface)
]

-- The tool that a name of a call stands for has a surface.
pub resolve_dispatch-HasSurface :
    (space : String) (db : Db) (name : String) (arguments : Fields) (core : String)
    (merged : Fields) (action : Option String)
    → resolve_dispatch space db name arguments ≡ tool core merged action
    → HasSurface core
unfolding tool_names
resolve_dispatch-HasSurface space db name arguments core merged action h =
    elim (resolve_dispatch-IsTool space db name arguments core merged action h) [
      | inl own ↦ subst HasSurface own.same_name (
          All-In HasSurface name (tool_names space db)
            (In-contains name (tool_names space db) own.listed)
            (own-HasSurface (admin_tools_enabled space db)))
      | inr alias ↦
          subst HasSurface alias.bound (bound-HasSurface _ alias.sound.allowed alias.sound.bound)
    ]
