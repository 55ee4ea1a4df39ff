-- ===== src/Core/Update.antt =====
-- engraphy/core/update.py: a content replacement. `prepare` reads the row and plans the new one, and
-- `apply_plan` is the UPDATE, in the same transaction if nothing has to be embedded and else in a
-- second one: between the two other transactions may come, so `apply_plan` stands by itself.
pub mod Keeps
use engraphy.Base.{
  ℕ, String, Bool, true, false, not, ◌&&◌, Option, none, some, List, [], ◌∷◌, any, leb, map, ◌==◌,
  contains, string_eq, if◌then◌else◌,
}
use engraphy.Core.Json.{Json, Fields, get, put, keys}
use engraphy.Core.AttrSpec.{Dates, DroppedAttr, reserved_attr_keys, sanitize_attrs, searchable_keys}
use engraphy.Core.Tx.{
  Tx, not_found, validation, check_violation, pure, gets, modify, or_raise, require, ◌>>=◌, ◌>>◌,
}
use engraphy.Core.Store.{
  Db, Session, Node, Vector, archived, status_eq, select_node, update_error, unless_error,
  update_at, count,
}
use engraphy.Core.Embedding.{render_attr_surface, searchable_text}
use engraphy.Core.Dedup.Envelope.{Env, NodeView}
use engraphy.Core.Dedup.Branches.{view_of}
use engraphy.Core.Dedup.Write.{spec_for}
use engraphy.Core.Dedup.Resonance.{config_bool}

-- What an update takes from elsewhere: the model, and Python's text of a JSON value.
pub record Encoder : Type 0 where
  pub env : Env
  pub embed_document : String → Vector
  pub show : Json → String

-- The arguments of `update`; none leaves a part as it is.
pub record Change : Type 0 where
  pub title : Option String
  pub body : Option String
  pub attrs : Option Fields

unfoldable pub given_or : {A : Type 0} → Option A → A → A
given_or none a = a
given_or (some b) a = b

-- `new_attrs["addenda"] = stored_addenda`
unfoldable pub with_addenda : Option Json → Fields → Fields
with_addenda none attrs = attrs
with_addenda (some addenda) attrs = put "addenda" addenda attrs

unfoldable pub merged_attrs : Option Fields → Fields → Fields
unfolding with_addenda
merged_attrs none stored = stored
merged_attrs (some attrs) stored = with_addenda (get "addenda" stored) attrs

-- The new content: `embedding` is none if the searchable text is the same.
pub record Plan : Type 0 where
  pub title : String
  pub body : String
  pub attrs : Fields
  pub extra_search : String
  pub embedding : Option Vector
  pub dropped : List DroppedAttr

no_reserved : Option Fields → Bool
no_reserved none = true
no_reserved (some attrs) = not (any (contains (keys attrs)) reserved_attr_keys)

-- The plan for a row, with the attr surface on or off.
unfoldable pub plan_for : Encoder → Session → Change → Node → Db → Bool → Plan
unfolding given_or merged_attrs
plan_for c s change n db surface_on =
    let title = given_or change.title n.title in
    let body = given_or change.body n.body in
    let spec = spec_for s n.node_type db in
    let (attrs, dropped) = sanitize_attrs c.env.dates spec (merged_attrs change.attrs n.attrs) in
    let extra =
      if surface_on then render_attr_surface c.show attrs (searchable_keys spec) else "" in
    let text = searchable_text title body extra in
    record {
      title = title;
      body = body;
      attrs = attrs;
      extra_search = extra;
      embedding =
          if text == searchable_text n.title n.body n.extra_search
          then none
          else some (c.embed_document text);
      dropped = dropped;
    }

-- The checks and the reads of `update`, up to the decision to embed.
unfoldable pub prepare : Encoder → Session → ℕ → Change → Tx Db Plan
unfolding no_reserved plan_for
prepare c s id change = do
  require (no_reserved change.attrs) validation
  found ← gets (select_node s id)
  n ← or_raise found not_found
  require (not (n.status == archived)) validation
  surface_on ← config_bool s "write.attr_surface" true
  gets (λ db. plan_for c s change n db surface_on)

-- The row that the UPDATE leaves.
unfoldable pub rewritten : String → Plan → Node → Node
unfolding given_or
rewritten model p n = record n {
  title = p.title;
  body = p.body;
  attrs = p.attrs;
  extra_search = p.extra_search;
  embedding = given_or p.embedding n.embedding;
  embedding_model = elim p.embedding [ none ↦ n.embedding_model | some v ↦ model ];
}

-- The constraints on the lengths of a title and a body.
unfoldable pub fits : String → String → Bool
unfolding count
fits title body =
    (leb 3 (count title) && leb (count title) 200) && (leb 1 (count body) && leb (count body) 8000)

pub record Updated : Type 0 where
  pub node : NodeView
  pub dropped : List DroppedAttr

-- `UPDATE nodes SET ... WHERE id = ... AND status <> 'archived' RETURNING ...`
unfoldable pub apply_plan : Encoder → Session → ℕ → Plan → Tx Db Updated
unfolding rewritten fits
apply_plan c s id p = do
  found ← gets (select_node s id)
  n ← or_raise found not_found
  require (not (n.status == archived)) not_found
  e ← gets (update_error c.env.dates s (some n) (rewritten c.env.model_stamp p))
  unless_error e
  require (fits p.title p.body) check_violation
  modify (λ db. record db { nodes = update_at id (rewritten c.env.model_stamp p) db.nodes })
  pure (record { node = view_of (rewritten c.env.model_stamp p n); dropped = p.dropped })
