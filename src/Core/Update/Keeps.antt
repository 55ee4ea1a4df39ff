-- ===== src/Core/Update/Keeps.antt =====
-- engraphy/core/update.py: what an update that commits leaves of the row.
use engraphy.Base.{
  ℕ, String, ◌≡◌, refl, sym, ◌∙◌, ap, Bool, true, false, not, ◌||◌, Option, none, some, ◌==◌,
  string_eq, if◌then◌else◌, arith, Bool-cases, inl, inr, ==-eq, ==-ne,
}
use engraphy.Core.Json.{Json, Fields, get, has}
use engraphy.Core.Json.Laws.{get-put, contains-keys}
use engraphy.Core.AttrSpec.{Dates, Spec, droppable, sanitize_attrs}
use engraphy.Core.AttrSpec.Sanitize.{get-sanitize_attrs}
use engraphy.Core.Tx.Leads.{
  Leads, Leads-gets, Leads-some, Leads-require, Leads-bind, Leads-read, Leads-or_raise, Leads-after,
  Leads-modify, Leads-pure, Returns, Returns-mono,
}
use engraphy.Core.Store.{Db, Session, Node, Vector, archived, status_eq, select_node, update_at}
use engraphy.Core.Store.Moves.{Keeps-unless_error}
use engraphy.Core.Embedding.{searchable_text}
use engraphy.Core.Dedup.Resonance.{config_bool}
use engraphy.Core.Update.{
  Encoder, Change, Plan, given_or, with_addenda, merged_attrs, no_reserved, plan_for, prepare,
  rewritten, fits, apply_plan,
}

-- Quarantine leaves the merge history alone.
addenda-sanitize_attrs :
    (dates : Dates) (spec : Spec) (attrs : Fields)
    → get "addenda" (sanitize_attrs dates spec attrs).0 ≡ get "addenda" attrs
unfolding droppable string_eq
addenda-sanitize_attrs dates spec attrs =
    get-sanitize_attrs dates spec attrs "addenda" (==-ne "addenda" "dropped" refl)

not-any : (a : Bool) (b : Bool) → not (a || (b || false)) ≡ true → a ≡ false
not-any true b h = sym h
not-any false b h = refl

none_of : (o : Option Json) → (elim o [ none ↦ false | some _ ↦ true ]) ≡ false → o ≡ none
none_of none h = refl
none_of (some v) h = ground arith

addenda-with_addenda :
    (o : Option Json) (attrs : Fields)
    → has "addenda" attrs ≡ false
    → get "addenda" (with_addenda o attrs) ≡ o
unfolding with_addenda has string_eq
addenda-with_addenda none attrs h = none_of (get "addenda" attrs) h
addenda-with_addenda (some v) attrs h = get-put "addenda" "addenda" v attrs

addenda-merged_attrs :
    (given : Option Fields) (stored : Fields)
    → no_reserved given ≡ true
    → get "addenda" (merged_attrs given stored) ≡ get "addenda" stored
unfolding merged_attrs no_reserved
addenda-merged_attrs none stored h = refl
addenda-merged_attrs (some attrs) stored h =
    addenda-with_addenda (get "addenda" stored) attrs
      (sym (contains-keys attrs "addenda") ∙ not-any _ _ h)

-- The vector of a row is the embedding of its searchable text.
abbrev pub Synced : Encoder → Node → Type 0
Synced c n = n.embedding ≡ c.embed_document (searchable_text n.title n.body n.extra_search)

given_or-Synced :
    (embed : String → Vector) (old new : String) (v : Vector)
    → v ≡ embed old
    → given_or (if new == old then none else some (embed new)) v ≡ embed new
unfolding given_or
given_or-Synced embed old new v h = elim (Bool-cases (new == old)) [
  | inl same ↦ rw same (h ∙ ap embed (sym (==-eq new old same)))
  | inr other ↦ rw other refl
]

-- The new part is the one given, and without one the old.
abbrev pub Chosen : {A : Type 0} → Option A → A → A → Type 0
Chosen none old new = new ≡ old
Chosen (some a) old new = new ≡ a

given_or-Chosen : {A : Type 0} (o : Option A) (a : A) → Chosen o a (given_or o a)
unfolding given_or
given_or-Chosen none a = refl
given_or-Chosen (some b) a = refl

-- What a plan owes to the row that it was made from, and to a row that has the same vector.
abbrev pub Follows : Encoder → Change → Node → Plan → Type 0
Follows c change n p =
    Chosen change.title n.title p.title
    × Chosen change.body n.body p.body
    × (get "addenda" p.attrs ≡ get "addenda" n.attrs)
    × ((row : Node)
        → row.embedding ≡ n.embedding
        → Synced c n
        → Synced c (rewritten c.env.model_stamp p row))

plan_for-Follows :
    (c : Encoder) (s : Session) (change : Change) (n : Node) (db : Db) (on : Bool)
    → no_reserved change.attrs ≡ true
    → Follows c change n (plan_for c s change n db on)
unfolding plan_for rewritten
plan_for-Follows c s change n db on free = (
  given_or-Chosen change.title n.title,
  given_or-Chosen change.body n.body,
  addenda-sanitize_attrs _ _ _ ∙ addenda-merged_attrs change.attrs n.attrs free,
  λ row same h.
      given_or-Synced c.embed_document (searchable_text n.title n.body n.extra_search) _
        row.embedding (same ∙ h),
)

-- The row that a plan was made from, and what the plan takes from it.
pub record Planned (c : Encoder) (s : Session) (id : ℕ) (change : Change) (db : Db) (p : Plan)
    : Type 0 where
  pub node : Node
  pub surface_on : Bool
  pub found : select_node s id db ≡ some node
  pub live : (node.status == archived) ≡ false
  pub planned : p ≡ plan_for c s change node db surface_on
  pub follows : Follows c change node p

-- What the UPDATE leaves of the tables that it meets: the one row, replaced by the plan.
pub record Replaced (c : Encoder) (s : Session) (id : ℕ) (later : Db) (p : Plan) (after : Db)
    : Type 0 where
  pub row : Node
  pub found : select_node s id later ≡ some row
  pub live : (row.status == archived) ≡ false
  pub fitting : fits p.title p.body ≡ true
  pub rows :
      after ≡ record later { nodes = update_at id (rewritten c.env.model_stamp p) later.nodes }

Leads-config_bool :
    (s : Session) (key : String) (default : Bool) (db : Db)
    → Leads (λ x. x ≡ db) (config_bool s key default) (λ on x. x ≡ db)
unfolding config_bool
Leads-config_bool s key default db = Leads-gets _ _ (Leads-or_raise _ _ (λ on e x h. h))

Leads-prepare :
    (c : Encoder) (s : Session) (id : ℕ) (change : Change) (db : Db)
    → Leads (λ x. x ≡ db) (prepare c s id change) (λ p x. Planned c s id change db p × (x ≡ db))
unfolding prepare
Leads-prepare c s id change db = Leads-require _ _ _ (λ free. Leads-gets _ _ (
    Leads-some _ _ (λ n found. Leads-require _ _ _ (λ live.
      Leads-bind (Leads-config_bool s _ _ db) (λ on. Leads-read _ (
        record {
          node = n;
          surface_on = on;
          found = found;
          live = ground (arith, live);
          planned = refl;
          follows = plan_for-Follows c s change n db on free;
        },
        refl,
      ))))))

Leads-apply_plan :
    (c : Encoder) (s : Session) (id : ℕ) (later : Db) (p : Plan)
    → Leads (λ x. x ≡ later) (apply_plan c s id p) (λ u after. Replaced c s id later p after)
unfolding apply_plan
Leads-apply_plan c s id later p = Leads-gets _ _ (
    Leads-some _ _ (λ row found. Leads-require _ _ _ (λ live. Leads-gets _ _ (
      Leads-after (Keeps-unless_error _) (λ _. Leads-require _ _ _ (λ fit.
        Leads-bind
          (Leads-modify {Q = λ u after. Replaced c s id later p after} _ (λ y k. record {
            row = row;
            found = found;
            live = ground (arith, live);
            fitting = fit;
            rows =
                ap
                  (λ (d : Db). record d {
                    nodes = update_at id (rewritten c.env.model_stamp p) d.nodes;
                  })
                  k;
          }))
          (λ u. Leads-pure _ (λ y k. k))))))))

-- An update, whatever other transactions come between its read and its UPDATE: the read changes no
-- table, and plans from a node that the session sees and that is not archived. The plan has the title
-- and the body given, or those of the node read, and the merge history of the node read, whatever
-- attrs are given. An UPDATE that commits, on any later tables, replaces exactly the row of a node that
-- the session sees and that is not archived, by a title and a body of the lengths allowed. If the
-- node read had the embedding of its searchable text as its vector, and the row of the UPDATE has the
-- same vector, the new row has the embedding of its new searchable text.
pub apply_plan-Replaced :
    (c : Encoder) (s : Session) (id : ℕ) (change : Change) (db later : Db)
    → Returns
        (λ p x.
          Planned c s id change db p
          × (x ≡ db)
          × Returns (λ u after. Replaced c s id later p after) (apply_plan c s id p later))
        (prepare c s id change db)
apply_plan-Replaced c s id change db later =
    Returns-mono (λ p x. Planned c s id change db p × (x ≡ db)) _ _
      (λ p x (planned, same). (planned, same, (Leads-apply_plan c s id later p).at later refl))
      ((Leads-prepare c s id change db).at db refl)
