-- ===== src/Core/Embedding.antt =====
-- engraphy/core/embedding.py: the text of a node that is embedded. The models are not modelled.
use engraphy.Base.{
  String, ◌<>◌, Bool, true, false, Option, none, some, List, [], ◌∷◌, ◌==◌, string_eq,
  if◌then◌else◌,
}
use engraphy.Core.Json.{Json, null, str, Fields, get, sorted}

-- `value is None or value == ""`
unfoldable pub is_blank : Json → Bool
is_blank null = true
is_blank (str s) = s == ""
is_blank _ = false

-- A line `key: value`, with Python's text of the value.
unfoldable pub line_of : (Json → String) → String → Option Json → Option String
unfolding is_blank
line_of show key none = none
line_of show key (some v) = if is_blank v then none else some (key <> ": " <> show v)

unfoldable pub lines_of : (Json → String) → Fields → List String → List String
unfolding line_of
lines_of show attrs [] = []
lines_of show attrs (key ∷ keys) =
    let rest = lines_of show attrs keys in
    elim (line_of show key (get key attrs)) [ none ↦ rest | some line ↦ line ∷ rest ]

unfoldable pub join_lines : List String → String
join_lines [] = ""
join_lines (line ∷ []) = line
join_lines (line ∷ more ∷ lines) = line <> "\n" <> join_lines (more ∷ lines)

-- `render_attr_surface`
unfoldable pub render_attr_surface : (Json → String) → Fields → List String → String
unfolding lines_of join_lines
render_attr_surface show attrs searchable = join_lines (lines_of show attrs (sorted searchable))

-- `searchable_text`
unfoldable pub searchable_text : String → String → String → String
searchable_text title body extra =
    title <> "\n" <> body <> (if extra == "" then "" else "\n" <> extra)
