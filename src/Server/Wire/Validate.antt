-- ===== src/Server/Wire/Validate.antt =====
-- engraphy/server/wire_types.py: `validate` and what it calls.
mod Sorts
mod Uuid
pub mod Types
pub mod Accepts
use engraphy.Base.{
  ℕ, zero, suc, ◌^◌, ◌%◌, String, Bool, true, false, not, ◌&&◌, ◌||◌, Option, none, some, List, [],
  ◌∷◌, map, any, leb, ◌==◌, contains, find_first, keep, string_eq, nat_eq, if◌then◌else◌,
}
use engraphy.Core.Json.{
  Json, null, bool, int, float, str, arr, obj, Items, nil, cons, Fields, end, field, get, has, keys,
  sorted,
}
use engraphy.Core.AttrSpec.{codes, at_end}
use engraphy.Server.Wire.{
  WireType, string, integer, boolean, object, array_of_string, array_of_uuid, array_of_link_items,
  Required, Arg, Surface, spec_of, arg_of, is_required,
}

-- The rules that a message names, and what it says of an argument.
pub data Rule : Type 0 where
  must_be : WireType → Rule
  must_be_uuid : Rule
  must_be_one_of : List String → Rule
  item_must_be : ℕ → WireType → Rule
  item_must_be_uuid : ℕ → Rule
  item_unknown_key : ℕ → String → Rule
  item_type_required : ℕ → Rule
  item_null item_not_string : ℕ → String → Rule

pub data Refusal : Type 0 where
  unknown_argument null_argument missing_argument : String → Refusal
  wrong_argument : String → Rule → Refusal

abbrev pub or_next {ℓ} : {A : Type ℓ} → Option A → Option A → Option A
or_next none next = next
or_next (some a) next = some a

abbrev pub fails {ℓ} : {A : Type ℓ} → Bool → A → Option A
fails good a = if good then none else some a

-- `[0-9a-fA-F]`
is_hex : ℕ → Bool
is_hex c = (leb 48 c && leb c 57) || ((leb 97 c && leb c 102) || (leb 65 c && leb c 70))

-- `[0-9a-fA-F]{n}` and then the rest
hex_run : ℕ → (List ℕ → Bool) → List ℕ → Bool
unfolding is_hex
hex_run zero rest cs = rest cs
hex_run (suc n) rest [] = false
hex_run (suc n) rest (c ∷ cs) = let later = hex_run n rest cs in is_hex c && later

-- `-` and then the rest
dash_then : (List ℕ → Bool) → List ℕ → Bool
dash_then rest [] = false
dash_then rest (c ∷ cs) = c == 45 && rest cs

-- `_UUID_RE.match`
unfoldable pub uuid_re : List ℕ → Bool
unfolding hex_run dash_then
uuid_re = hex_run 8 (
    dash_then
      (hex_run 4 (dash_then (hex_run 4 (dash_then (hex_run 4 (dash_then (hex_run 12 at_end))))))))

-- `_is_integer`
unfoldable pub is_integer : Json → Bool
is_integer (int n) = true
is_integer (float s m k) = m % 2 ^ k == 0
is_integer _ = false

link_item_keys : List String
link_item_keys = "dst_id" ∷ "src_id" ∷ "type" ∷ []

-- `item[key]` of a key that is there must be a string.
item_key : ℕ → String → Option Json → Option Rule
item_key index key none = none
item_key index key (some (str s)) = none
item_key index key (some null) = some (item_null index key)
item_key index key (some _) = some (item_not_string index key)

first_unknown : ℕ → List String → Option Rule
first_unknown index [] = none
first_unknown index (k ∷ ks) = some (item_unknown_key index k)

-- One item of `_check_link_items`
unfoldable pub check_link_item : ℕ → Json → Option Rule
unfolding link_item_keys item_key first_unknown
check_link_item index (obj item) =
    or_next (first_unknown index (sorted (keep (λ k. not (contains link_item_keys k)) (keys item))))
      (or_next (fails (has "type" item) (item_type_required index)) (
        or_next (item_key index "dst_id" (get "dst_id" item)) (
          or_next (item_key index "src_id" (get "src_id" item))
            (item_key index "type" (get "type" item)))))
check_link_item index _ = some (item_must_be index object)

unfoldable pub check_link_items : ℕ → Items → Option Rule
unfolding check_link_item
check_link_items index nil = none
check_link_items index (cons item items) =
    or_next (check_link_item index item) (check_link_items (suc index) items)

-- One item of an array of strings or of ids
check_text_item : Bool → ℕ → Json → Option Rule
unfolding codes
check_text_item uuid index (str s) = fails (not uuid || uuid_re (codes s)) (item_must_be_uuid index)
check_text_item uuid index _ = some (item_must_be index string)

unfoldable pub check_text_items : Bool → ℕ → Items → Option Rule
unfolding check_text_item
check_text_items uuid index nil = none
check_text_items uuid index (cons item items) =
    or_next (check_text_item uuid index item) (check_text_items uuid (suc index) items)

is_boolean : Json → Bool
is_boolean (bool b) = true
is_boolean _ = false

-- `_check_type`, up to the enumeration
unfoldable pub check_kind : WireType → Bool → Json → Option Rule
unfolding check_link_items check_text_items is_integer uuid_re is_boolean codes
check_kind string uuid (str s) = fails (not uuid || uuid_re (codes s)) must_be_uuid
check_kind string uuid _ = some (must_be string)
check_kind integer uuid v = fails (is_integer v) (must_be integer)
check_kind boolean uuid v = fails (is_boolean v) (must_be boolean)
check_kind object uuid (obj d) = none
check_kind object uuid _ = some (must_be object)
check_kind array_of_string uuid (arr items) = check_text_items false 0 items
check_kind array_of_string uuid _ = some (must_be array_of_string)
check_kind array_of_uuid uuid (arr items) = check_text_items true 0 items
check_kind array_of_uuid uuid _ = some (must_be array_of_string)
check_kind array_of_link_items uuid (arr items) = check_link_items 0 items
check_kind array_of_link_items uuid _ = some (must_be array_of_link_items)

is_member : List String → Json → Bool
is_member values (str s) = contains values s
is_member values _ = false

check_enum : Option (List String) → Json → Option Rule
unfolding is_member
check_enum none v = none
check_enum (some values) v = fails (is_member values v) (must_be_one_of values)

-- `_check_type`
unfoldable pub check_type : Arg → Json → Option Rule
unfolding check_kind check_enum
check_type a v = or_next (check_kind a.json_type a.uuid v) (check_enum a.enum v)

-- `for name in sorted(arguments): if name not in spec`
unfoldable pub check_names : Surface → List String → Option Refusal
check_names spec [] = none
check_names spec (name ∷ names) =
    or_next (elim (arg_of name spec) [ none ↦ some (unknown_argument name) | some a ↦ none ])
      (check_names spec names)

is_null : Option Json → Bool
is_null (some null) = true
is_null _ = false

-- Presence, for one row of the surface
check_row : String → Option Arg → Fields → Option Refusal
unfolding is_null is_required
check_row name none arguments = none
check_row name (some a) arguments =
    or_next (fails (not (is_null (get name arguments))) (null_argument name))
      (fails (has name arguments || not (is_required a.required arguments)) (missing_argument name))

-- `for name in sorted(spec)`
unfoldable pub check_presence : Surface → Fields → List String → Option Refusal
unfolding check_row
check_presence spec arguments [] = none
check_presence spec arguments (name ∷ names) =
    or_next (check_row name (arg_of name spec) arguments) (check_presence spec arguments names)

-- The type of one argument that is there and in the surface
check_value_at : String → Option Arg → Option Json → Option Refusal
unfolding check_type
check_value_at name (some a) (some v) = elim (check_type a v) [
  | none ↦ none
  | some rule ↦ some (wrong_argument name rule)
]
check_value_at name _ _ = none

-- `for name in sorted(arguments): _check_type(...)`
unfoldable pub check_types : Surface → Fields → List String → Option Refusal
unfolding check_value_at
check_types spec arguments [] = none
check_types spec arguments (name ∷ names) =
    or_next (check_value_at name (arg_of name spec) (get name arguments))
      (check_types spec arguments names)

-- `validate` against one surface
unfoldable pub validate_against : Surface → Fields → Option Refusal
unfolding check_names check_presence check_types
validate_against spec arguments = or_next (check_names spec (sorted (keys arguments))) (
    or_next (check_presence spec arguments (sorted (map (λ e. e.0) spec)))
      (check_types spec arguments (sorted (keys arguments))))

-- `validate`: the refusal, or none
unfoldable pub validate : String → Fields → Option Refusal
unfolding validate_against
validate core_name arguments = elim (spec_of core_name) [
  | none ↦ none
  | some spec ↦ validate_against spec arguments
]
