-- ===== src/Server/Wire/Validate/Accepts.antt =====
-- engraphy/server/wire_types.py: what `validate` accepts, said without it.
use engraphy.Base.{
  String, ◌≡◌, refl, sym, true, false, not, ◌||◌, Option, none, some, List, [], ◌∷◌, map, ◌==◌,
  contains, string_eq, nat_eq, All, arith, ◌∙◌, In, In-All, All-In, In-map, find_first-In,
  contains-In,
}
use engraphy.Core.Json.{Json, null, str, Fields, get, has, keys}
use engraphy.Core.Json.Laws.{contains-keys}
use engraphy.Server.Wire.{Arg, Surface, spec_of, arg_of, is_required}
use engraphy.Server.Wire.Validate.{
  Rule, Refusal, fails, is_null, is_member, check_enum, check_type, check_names, check_row,
  check_presence, check_value_at, check_types, validate_against, validate,
}
use engraphy.Server.Wire.Validate.Sorts.{All-of-sorted}
use engraphy.Server.Wire.Validate.Types.{HasType, or_next-none, fails-none, kind_of}

-- A text of the enumeration, if there is one.
abbrev pub InEnum : Option (List String) → Json → Type 0
InEnum none v = Unit
InEnum (some values) v = (s : String) × (v ≡ str s) × (contains values s ≡ true)

enum_of : (o : Option (List String)) (v : Json) → check_enum o v ≡ none → InEnum o v
unfolding check_enum is_member
enum_of none v h = tt
enum_of (some values) (str s) h = (s, refl, fails-none _ _ h)
enum_of (some values) _ h = cc

-- A value that an argument may have.
abbrev pub Fits : Arg → Json → Type 0
Fits a v = HasType a.json_type a.uuid v × InEnum a.enum v

-- A name that was given is in the surface, and its value fits.
abbrev pub IsGiven : Surface → Fields → String → Type 0
IsGiven spec arguments name =
    (a : Arg) × (v : Json) × (arg_of name spec ≡ some a) × (get name arguments ≡ some v) × Fits a v

-- A name of the surface is not given as null, and is given if it has to be.
abbrev pub IsProvided : Surface → Fields → String → Type 0
IsProvided spec arguments name =
    (a : Arg) × (arg_of name spec ≡ some a)
    × ¬ (get name arguments ≡ some null)
    × ((has name arguments || not (is_required a.required arguments)) ≡ true)

-- Arguments as a surface asks for them.
pub record IsWellFormed (spec : Surface) (arguments : Fields) : Type 0 where
  pub given : All (IsGiven spec arguments) (keys arguments)
  pub provided : All (IsProvided spec arguments) (map (λ e. e.0) spec)

module _ (spec : Surface) (arguments : Fields) where
  named :
      (names : List String)
      → check_names spec names ≡ none
      → All (λ name. (a : Arg) × (arg_of name spec ≡ some a)) names
  unfolding check_names
  named [] h = tt
  named (name ∷ names) h =
      let (first, rest) = or_next-none _ _ h in
      (declared (arg_of name spec) name first, named names rest)
    where
      declared :
          (o : Option Arg) (name : String)
          → (elim o [ none ↦ some (Refusal.unknown_argument name) | some a ↦ none ]) ≡ none
          → (a : Arg) × (o ≡ some a)
      declared none name h = cc
      declared (some a) name h = (a, refl)

  typed :
      (names : List String)
      → check_types spec arguments names ≡ none
      → All (λ name. check_value_at name (arg_of name spec) (get name arguments) ≡ none) names
  unfolding check_types
  typed [] h = tt
  typed (name ∷ names) h = let (first, rest) = or_next-none _ _ h in (first, typed names rest)

  rows :
      (names : List String)
      → check_presence spec arguments names ≡ none
      → All (λ name. check_row name (arg_of name spec) arguments ≡ none) names
  unfolding check_presence
  rows [] h = tt
  rows (name ∷ names) h = let (first, rest) = or_next-none _ _ h in (first, rows names rest)

  -- A name that is a key has a value.
  key_value :
      (name : String) → In name (keys arguments) → (v : Json) × (get name arguments ≡ some v)
  unfolding has
  key_value name m =
      found (get name arguments) (sym (contains-keys arguments name) ∙ contains-In name _ m)
    where
      found :
          (o : Option Json)
          → (elim o [ none ↦ false | some _ ↦ true ]) ≡ true
          → (v : Json) × (o ≡ some v)
      found none h = cc
      found (some v) h = (v, refl)

  -- A name of the surface has a row.
  row_of : (name : String) → In name (map (λ e. e.0) spec) → (a : Arg) × (arg_of name spec ≡ some a)
  unfolding arg_of
  row_of name m =
      let (e, there, this) = In-map (λ (e : String × Arg). e.0) name spec m in
      let (b, found) = find_first-In (λ e. e.0 == name) e spec there (ground (arith, this)) in
      (b.1, rw (found, arg_of) refl)

  fits :
      (a : Arg) (v : Json) (name : String) → check_value_at name (some a) (some v) ≡ none → Fits a v
  unfolding check_value_at check_type
  fits a v name h =
      let (kind, enum) = or_next-none _ _ (passed (check_type a v) h) in
      (kind_of a.json_type a.uuid v kind, enum_of a.enum v enum)
    where
      passed :
          (o : Option Rule)
          → (elim o [ none ↦ none | some rule ↦ some (Refusal.wrong_argument name rule) ]) ≡ none
          → o ≡ none
      passed none h = refl
      passed (some r) h = cc

  provided :
      (name : String) (a : Arg)
      → check_row name (some a) arguments ≡ none
      → ¬ (get name arguments ≡ some null)
        × ((has name arguments || not (is_required a.required arguments)) ≡ true)
  unfolding check_row is_null
  provided name a h =
      let present = not (is_null (get name arguments)) in
      let complete = has name arguments || not (is_required a.required arguments) in
      let (given, needed) =
        or_next-none (fails present (Refusal.null_argument name))
          (fails complete (Refusal.missing_argument name)) h in
      let full = fails-none present (Refusal.null_argument name) given in
      (λ e. ground (arith, full, e), fails-none complete (Refusal.missing_argument name) needed)

  validate_against-IsWellFormed :
      validate_against spec arguments ≡ none → IsWellFormed spec arguments
  unfolding validate_against
  validate_against-IsWellFormed h =
      let (known, h1) = or_next-none _ _ h in
      let (present, types) = or_next-none _ _ h1 in
      let names = All-of-sorted _ _ (named _ known) in
      let values = All-of-sorted _ _ (typed _ types) in
      let needs = All-of-sorted _ _ (rows _ present) in
      record {
        given = In-All _ _ (λ name m.
            let (a, declared) = All-In _ name _ m names in
            let (v, value) = key_value name m in
            let checked = All-In _ name _ m values in
            (a, v, declared, value, fits a v name (rw (declared, value) at checked)));
        provided = In-All _ _ (λ name m.
            let (a, declared) = row_of name m in
            let checked = All-In _ name _ m needs in
            let (given, needed) = provided name a (rw declared at checked) in
            (a, declared, given, needed));
      }

-- Arguments that the server accepts for a tool are well formed: each name that is given is in the
-- tool's surface and its value is of the type of its row, where an id is asked for, digits of the base
-- sixteen in groups of 8, 4, 4, 4 and 12 with dashes between, with a newline at the end or none,
-- and in the enumeration if the row has one; and each name of the surface is given if this call needs
-- it, and never as null.
pub validate-IsWellFormed :
    (core_name : String) (spec : Surface) (arguments : Fields)
    → spec_of core_name ≡ some spec
    → validate core_name arguments ≡ none
    → IsWellFormed spec arguments
unfolding validate
validate-IsWellFormed core_name spec arguments known accepted =
    validate_against-IsWellFormed spec arguments (rw (known, validate) at accepted)
