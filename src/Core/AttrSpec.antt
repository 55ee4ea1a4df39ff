-- ===== src/Core/AttrSpec.antt =====
-- engraphy/core/attr_spec.py: the attr-spec interpreter, the quarantine of bad values and the rule
-- for searchable keys. A spec is as pack validation leaves it: a rule is an enum or one of the five
-- types. `re` and `datetime` of Python are parameters: which code points `\d` matches, and which
-- texts `date.fromisoformat` accepts.
pub mod Sanitize
pub mod Phases
use Prim.Native.Char.{code}
use engraphy.Base.{
  ℕ, zero, suc, ◌+◌, ◌-◌, ◌%◌, ◌^◌, String, ◌<>◌, Bool, true, false, not, ◌&&◌, ◌||◌, Option, none,
  some, List, [], ◌∷◌, ◌++◌, map, length, keep, ◌==◌, contains, ltb, string_eq, nat_eq,
  if◌then◌else◌,
}
use engraphy.Core.Json.{
  Json, null, bool, int, float, str, arr, obj, Fields, end, field, get, put, keys, without, has,
  sorted,
}

-- Python's own: `\d` of `re`, and `datetime.date.fromisoformat`.
pub record Dates : Type 0 where
  pub is_decimal : ℕ → Bool
  pub fromisoformat : String → Bool

pub data TypeName : Type 0 where
  string_type int_type number_type bool_type date_type : TypeName

pub data Check : Type 0 where
  one_of : List String → Check
  typed : TypeName → Check

pub record Rule : Type 0 where
  pub searchable : Option Bool
  pub check : Check

-- `{when: {key, equals}, key}`
pub record Condition : Type 0 where
  pub when_key : String
  pub equals : String
  pub key : String

pub record Spec : Type 0 where
  pub required : List (String × Rule)
  pub optional : List (String × Rule)
  pub requires : List Condition
  pub closed : Bool

abbrev pub reserved_attr_keys : List String
reserved_attr_keys = "addenda" ∷ "dropped" ∷ []

unfoldable pub find_rule : String → List (String × Rule) → Option Rule
find_rule k [] = none
find_rule k ((j, r) ∷ rules) = let rest = find_rule k rules in if j == k then some r else rest

abbrev or_else : Option Rule → Option Rule → Option Rule
or_else (some r) o = some r
or_else none o = o

-- `req[key] if key in req else opt[key]`, and `none` for a key that is not known
unfoldable pub rule_of : Spec → String → Option Rule
unfolding find_rule
rule_of spec key = or_else (find_rule key spec.required) (find_rule key spec.optional)

unfoldable pub codes : String → List ℕ
codes String.[] = []
codes (String.◌∷◌ c s) = code c ∷ codes s

-- `^\d{4}(-\d{2}(-\d{2})?)?$`; the `$` of `re` also matches before a newline that ends the text.
unfoldable pub at_end : List ℕ → Bool
at_end [] = true
at_end (c ∷ []) = c == 10
at_end _ = false

two_digits : (ℕ → Bool) → (List ℕ → Bool) → List ℕ → Bool
two_digits d rest (hyphen ∷ a ∷ b ∷ cs) = hyphen == b'-' && (d a && (d b && rest cs))
two_digits d rest _ = false

unfoldable pub date_re : (ℕ → Bool) → List ℕ → Bool
unfolding at_end two_digits
date_re d (a ∷ b ∷ c ∷ e ∷ cs) =
    (d a && (d b && (d c && d e)))
    && (at_end cs || two_digits d (λ ds. at_end ds || two_digits d at_end ds) cs)
date_re d _ = false

repeat : ℕ → String
repeat zero = ""
repeat (suc n) = "-01" <> repeat n

-- `value + "-01" * (3 - len(value.split("-")))`
padded : String → String
unfolding repeat codes
padded value = value <> repeat (2 - length (keep (λ c. c == b'-') (codes value)))

joined : List String → String
joined [] = ""
joined (s ∷ []) = s
joined (s ∷ t ∷ ts) = s <> ("|" <> joined (t ∷ ts))

abbrev unless : Bool → String → Option String
unless good error = if good then none else some error

-- `_json_type(value) == "string"`, and so on for the other names
abbrev is_number : Json → Bool
is_number (int n) = true
is_number (float s m k) = true
is_number (bool b) = false
is_number null = false
is_number (str s) = false
is_number (arr xs) = false
is_number (obj d) = false

abbrev is_bool : Json → Bool
is_bool (bool b) = true
is_bool (int n) = false
is_bool (float s m k) = false
is_bool null = false
is_bool (str s) = false
is_bool (arr xs) = false
is_bool (obj d) = false

-- The number is whole: `value == int(value)`.
abbrev is_whole : Json → Bool
is_whole (int n) = true
is_whole (float s m k) = m % 2 ^ k == 0
is_whole (bool b) = false
is_whole null = false
is_whole (str s) = false
is_whole (arr xs) = false
is_whole (obj d) = false

abbrev pub text_of : Json → Option String
text_of (str s) = some s
text_of (int n) = none
text_of (float s m k) = none
text_of (bool b) = none
text_of null = none
text_of (arr xs) = none
text_of (obj d) = none

attr : String → String → String
attr key sentence = ("attrs." <> key) <> sentence

check_date : Dates → String → Option String → Option String
unfolding date_re codes padded attr
check_date dates key none = some (attr key " must be a date")
check_date dates key (some s) =
    if not (date_re dates.is_decimal (codes s))
    then some (attr key " must be a date")
    else unless (dates.fromisoformat (padded s)) (attr key " must be a valid ISO date")

check_string : String → Option String → Option String
unfolding codes attr
check_string key none = some (attr key " must be a string")
check_string key (some s) =
    unless (not (ltb 2000 (length (codes s)))) (attr key " must be at most 2000 characters")

check_choice : String → List String → Option String → Option String
unfolding attr joined
check_choice key choices none = some (attr key (" must be one of " <> joined choices))
check_choice key choices (some s) =
    unless (contains choices s) (attr key (" must be one of " <> joined choices))

check_by : Dates → String → Json → Check → Option String
unfolding check_date check_string check_choice attr
check_by dates key value (one_of choices) = check_choice key choices (text_of value)
check_by dates key value (typed string_type) = check_string key (text_of value)
check_by dates key value (typed int_type) = unless (is_whole value) (attr key " must be a int")
check_by dates key value (typed number_type) =
    unless (is_number value) (attr key " must be a number")
check_by dates key value (typed bool_type) = unless (is_bool value) (attr key " must be a bool")
check_by dates key value (typed date_type) = check_date dates key (text_of value)

-- `_check_value`: the error, or `none` if the value passes
unfoldable pub check_value : Dates → String → Json → Rule → Option String
unfolding check_by
check_value dates key value rule = check_by dates key value rule.check

-- The error of a present key that is known, as phase 4 finds it.
unfoldable pub value_error : Dates → Spec → String → Json → Option String
value_error dates spec key value = elim (rule_of spec key) [
  | none ↦ none
  | some rule ↦ check_value dates key value rule
]

pub fst_of : String × Rule → String
fst_of (k, r) = k

-- `dropped_keys`: the keys of the quarantine bucket, if that is an object
bucket_of : Option Json → Fields
bucket_of (some (obj d)) = d
bucket_of _ = end

unfoldable pub bucket : Fields → Fields
unfolding bucket_of
bucket attrs = bucket_of (get "dropped" attrs)

-- Phase 1: required presence.
unfoldable pub presence_errors : List String → Fields → List String
unfolding attr
presence_errors [] attrs = []
presence_errors (key ∷ req) attrs =
    let rest = presence_errors req attrs in
    if has key attrs || has key (bucket attrs) then rest else attr key " is required" ∷ rest

applies : Condition → Option Json → Bool
applies c (some (str s)) = s == c.equals
applies c _ = false

-- Phase 2: conditional presence, in the author's order.
unfoldable pub condition_errors : List Condition → Fields → List String
unfolding applies attr
condition_errors [] attrs = []
condition_errors (c ∷ cond) attrs =
    let rest = condition_errors cond attrs in
    if applies c (get c.when_key attrs) && not (has c.key attrs)
    then attr c.key ((" is required when " <> c.when_key) <> ("=" <> c.equals)) ∷ rest
    else rest

is_known : Option Rule → Bool
is_known none = false
is_known (some r) = true

-- Phase 3: unknown keys under a closed spec.
unfoldable pub unknown_errors : Spec → List String → List String
unfolding is_known attr
unknown_errors spec [] = []
unknown_errors spec (key ∷ ks) =
    let rest = unknown_errors spec ks in
    if not (is_known (rule_of spec key)) && not (contains reserved_attr_keys key)
    then attr key " is not allowed (closed spec)" ∷ rest
    else rest

at_key : Dates → Spec → String → Option Json → Option String
at_key dates spec key none = none
at_key dates spec key (some v) = value_error dates spec key v

-- Phase 4: the values of the known keys.
unfoldable pub value_errors : Dates → Spec → Fields → List String → List String
unfolding at_key
value_errors dates spec attrs [] = []
value_errors dates spec attrs (key ∷ ks) =
    let rest = value_errors dates spec attrs ks in
    elim (at_key dates spec key (get key attrs)) [ none ↦ rest | some e ↦ e ∷ rest ]

-- The ordered error strings; the empty list if the attrs are valid.
unfoldable pub validate_attrs : Dates → Spec → Fields → List String
unfolding presence_errors condition_errors unknown_errors value_errors fst_of
validate_attrs dates spec attrs =
    presence_errors (sorted (map fst_of spec.required)) attrs
    ++ (condition_errors spec.requires attrs
        ++ ((if spec.closed then unknown_errors spec (sorted (keys attrs)) else [])
            ++ value_errors dates spec attrs (sorted (keys attrs))))

-- The error for which a write quarantines the key, if it does.
unfoldable pub droppable : Dates → Spec → Fields → String → Option String
unfolding at_key
droppable dates spec attrs key =
    if contains reserved_attr_keys key then none else at_key dates spec key (get key attrs)

droppable_in : Dates → Spec → Fields → List String → List (String × String)
droppable_in dates spec attrs [] = []
droppable_in dates spec attrs (key ∷ ks) =
    let rest = droppable_in dates spec attrs ks in
    elim (droppable dates spec attrs key) [ none ↦ rest | some e ↦ (key, e) ∷ rest ]

-- `_droppable_errors`, in key order
unfoldable pub droppable_errors : Dates → Spec → Fields → List (String × String)
unfolding droppable_in
droppable_errors dates spec attrs = droppable_in dates spec attrs (sorted (keys attrs))

key_of : String × String → String
key_of (k, e) = k

or_null : Option Json → Json
or_null none = null
or_null (some v) = v

-- `{"value": attrs[key], "error": errs[key]}`
unfoldable pub entry : Fields → String → String → Json
unfolding or_null
entry attrs key error =
    obj (field "value" (or_null (get key attrs)) (field "error" (str error) end))

fill_bucket : Fields → List (String × String) → Fields → Fields
fill_bucket attrs [] d = d
fill_bucket attrs ((key, error) ∷ errs) d =
    fill_bucket attrs errs (put key (entry attrs key error) d)

-- One item of the envelope's `dropped_attrs`.
pub record DroppedAttr : Type 0 where
  pub key : String
  pub value : Json
  pub error : String

dropped_list : Fields → List (String × String) → List DroppedAttr
unfolding or_null
dropped_list attrs [] = []
dropped_list attrs ((k, e) ∷ errs) =
    record { key = k; value = or_null (get k attrs); error = e } ∷ dropped_list attrs errs

quarantine : Fields → List (String × String) → Fields × List DroppedAttr
unfolding fill_bucket dropped_list key_of
quarantine attrs [] = (attrs, [])
quarantine attrs (e ∷ errs) =
    let bad = e ∷ errs in
    (
      put "dropped" (obj (fill_bucket attrs bad (bucket attrs)))
          (without (λ k. contains (map key_of bad) k) attrs),
      dropped_list attrs bad,
    )

unfoldable pub sanitize_attrs : Dates → Spec → Fields → Fields × List DroppedAttr
unfolding quarantine
sanitize_attrs dates spec attrs = quarantine attrs (droppable_errors dates spec attrs)

is_searchable : Option Bool → Check → Bool
is_searchable (some b) check = b
is_searchable none (one_of choices) = false
is_searchable none (typed string_type) = true
is_searchable none (typed date_type) = true
is_searchable none (typed int_type) = false
is_searchable none (typed number_type) = false
is_searchable none (typed bool_type) = false

searchable_in : List (String × Rule) → List String
unfolding is_searchable
searchable_in [] = []
searchable_in ((key, rule) ∷ rules) =
    let rest = searchable_in rules in
    if contains reserved_attr_keys key
    then rest
    else if is_searchable rule.searchable rule.check
    then key ∷ rest
    else rest

-- The set of searchable keys, as a list.
unfoldable pub searchable_keys : Spec → List String
unfolding searchable_in
searchable_keys spec = searchable_in spec.required ++ searchable_in spec.optional
