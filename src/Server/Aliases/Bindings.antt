-- ===== src/Server/Aliases/Bindings.antt =====
-- engraphy/server/aliases.py: what a binding that is built may be, and the arguments of its calls.
use mathlib.Core.Path.{subst}
use mathlib.Core.Option.{some-injective}
use engraphy.Base.{
  String, ◌≡◌, refl, true, false, not, Option, none, some, List, [], ◌∷◌, any, All, inl, inr,
  contains, string_eq, arith, Bool-cases, ==-eq,
}
use engraphy.Core.Json.{Json, Fields, end, field, get, put, keys}
use engraphy.Core.Json.Laws.{get-put}
use engraphy.Server.Aliases.{
  AliasSpec, AliasBinding, arguments_of, is_core, binding_of, bind, add_binding, build_aliases,
  update_with, resolve_alias_call,
}

-- The keys of a dict of Python differ.
IsDict : Fields → Type 0
IsDict end = Unit
IsDict (field k v d) = (get k d ≡ none) × IsDict d

first_of : Option Json → Option Json → Option Json
first_of (some v) w = some v
first_of none w = w

-- The preset of a key, or else what the caller gave.
preset_or : Fields → Fields → String → Option Json
unfolding first_of
preset_or preset args k = first_of (get k preset) (get k args)

get-update_with :
    (k : String) (preset merged : Fields)
    → IsDict preset
    → get k (update_with preset merged) ≡ preset_or preset merged k
unfolding IsDict get update_with preset_or first_of
get-update_with k end merged d = refl
get-update_with k (field j v preset) merged d =
    ground
      (arith, get-update_with k preset (put j v merged) d.1, get-put k j v merged, ==-eq j k, d.0)

-- An argument of a call of an alias has the value of the alias's preset, if it has one for it, and the
-- caller's otherwise. The preset is a dict: its keys differ.
get-resolve_alias_call :
    (b : AliasBinding) (caller_args : Fields) (k : String)
    → IsDict b.preset
    → get k (resolve_alias_call b caller_args).1 ≡ preset_or b.preset caller_args k
unfolding resolve_alias_call
get-resolve_alias_call b caller_args k d = get-update_with k b.preset caller_args d

-- What `build_aliases` lets a binding be.
pub record IsSound (b : AliasBinding) : Type 0 where
  pub allowed : List String
  pub bound : arguments_of (some b.binds) ≡ some allowed
  pub declared : (k : String) → contains (keys b.preset) k ≡ true → contains allowed k ≡ true
  pub own_name : is_core b.name ≡ false

declared_keys :
    (allowed ks : List String) (k : String)
    → any (λ k. not (contains allowed k)) ks ≡ false
    → contains ks k ≡ true
    → contains allowed k ≡ true
declared_keys allowed [] k none_out present = ground arith
declared_keys allowed (j ∷ ks) k none_out present =
    ground (arith, declared_keys allowed ks k, ==-eq k j, ==-eq j k)

bind-IsSound :
    (name : String) (spec : AliasSpec) (tool : Option String) (allowed : Option (List String))
    (b : AliasBinding)
    → arguments_of tool ≡ allowed
    → bind name spec tool allowed ≡ some b
    → IsSound b
unfolding bind
bind-IsSound name spec none allowed b known built = cc
bind-IsSound name spec (some tool) none b known built = cc
bind-IsSound name spec (some tool) (some allowed) b known built =
    elim (Bool-cases (any (λ k. not (contains allowed k)) (keys spec.preset))) [
      | inl out ↦ absurd (ground (arith, out, built))
      | inr inside ↦ elim (Bool-cases (is_core name)) [
        | inl shadows ↦ absurd (ground (arith, inside, shadows, built))
        | inr own ↦
            let e : binding_of name tool spec ≡ b = ground (arith, inside, own, built) in
            subst IsSound e (record {
              allowed = allowed;
              bound = known;
              declared = λ k. declared_keys allowed (keys spec.preset) k inside;
              own_name = own;
            })
      ]
    ]

add_binding-some :
    (o : Option AliasBinding) (os : Option (List AliasBinding)) (bs : List AliasBinding)
    → add_binding o os ≡ some bs
    → (b : AliasBinding) × (rest : List AliasBinding) × (o ≡ some b)
      × (os ≡ some rest)
      × (b ∷ rest ≡ bs)
unfolding add_binding
add_binding-some (some b) (some rest) bs h = (b, rest, refl, refl, some-injective _ _ h)
add_binding-some none os bs h = cc
add_binding-some (some b) none bs h = cc

pub build_aliases-IsSound :
    (specs : List (String × AliasSpec)) (bs : List AliasBinding)
    → build_aliases specs ≡ some bs
    → All IsSound bs
unfolding build_aliases
build_aliases-IsSound [] bs built = subst (All IsSound) (some-injective _ _ built) tt
build_aliases-IsSound ((name, spec) ∷ specs) bs built =
    let (b, rest, here, later, e) = add_binding-some _ _ bs built in
    subst (All IsSound) e (
      bind-IsSound name spec spec.binds (arguments_of spec.binds) b refl here,
      build_aliases-IsSound specs rest later,
    )
