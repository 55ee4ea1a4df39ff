-- ===== src/Core/Dedup/Preserves.antt =====
-- engraphy/core/dedup.py: what `write`, `resolve_duplicate` and `supersede` leave as it was.
use engraphy.Base.{
  ℕ, String, ◌≡◌, refl, sym, ◌∙◌, ==_self, string_eq, nat_eq, Bool, Option, none, some, List, ℤ,
  ◌⊎◌, inl, inr,
}
use engraphy.Core.Json.{Json}
use engraphy.Core.Json.Laws.{without-put}
use engraphy.Core.AttrSpec.{DroppedAttr}
use engraphy.Core.Tx.Keeps.{
  Ends, Keeps, Keeps-pure, Keeps-gets, Keeps-or_raise, Keeps-require, Keeps-if, Keeps-bind,
}
use engraphy.Core.Store.{Db, Node, Session, is_addenda}
use engraphy.Core.Store.Growth.{
  Grown, SameMemory, SameMemory-refl, Kept, Grown-refl, Grown-append_node, Grown-add_edge,
  Grown-other, Grown-update_at, Grown-log_dedup, Grown-log_audit,
}
use engraphy.Core.Store.Moves.{Keeps-insert_new_edge, Keeps-update_node}
use engraphy.Core.Dedup.Bands.{BandThresholds}
use engraphy.Core.Dedup.Envelope.{Env, Incoming, Envelope}
use engraphy.Core.Dedup.Branches.{add_addendum, park}
use engraphy.Core.Dedup.Write.{
  write, validate_no_reserved_attrs, validate_not_reserved_type, sanitize_attrs_for_write,
}
use engraphy.Core.Dedup.Resolve.{resolve_duplicate}
use engraphy.Core.Dedup.Supersede.{
  supersede, replace, replace_same_type, downgrade_type, retire, flip,
}
use engraphy.Core.Dedup.Steps.{
  Open, Keeps-locked_core, Keeps-require_writable, Keeps-write, Keeps-resolve_duplicate,
  Keeps-relate_old,
}
use engraphy.Core.Dedup.Moves.{Keeps-validate_links_shape, Keeps-resolve_config}

SameMemory-add_addendum : (x y : Node) (a : Json) → SameMemory x y → SameMemory x (add_addendum a y)
unfolding add_addendum
SameMemory-add_addendum x y a m = record {
  id = m.id;
  space = m.space;
  node_type = m.node_type;
  scope = m.scope;
  title = m.title;
  body = m.body;
  attrs = without-put is_addenda "addenda" _ y.attrs (==_self {A = String} "addenda") ∙ m.attrs;
  embedding = m.embedding;
  extra_search = m.extra_search;
  author = m.author;
}

-- The node is kept, or it is the one that was superseded.
abbrev pub KeptBut : ℕ → Node → Node → Type 0
KeptBut old_id x y = SameMemory x y × ((x.id ≡ old_id) ⊎ (y.status ≡ x.status))

KeptBut-refl : (old_id : ℕ) (x : Node) → KeptBut old_id x x
KeptBut-refl old_id x = (SameMemory-refl x, inr refl)

Grown-Open :
    {R : Node → Node → Type 0} {origin : Db}
    → ((x y : Node) (a : Json) → R x y → R x (add_addendum a y))
    → Open (Grown R origin)
unfolding park
Grown-Open r = record {
  closed = record {
    inserts = Grown-append_node;
    relates = Grown-add_edge;
    parks = λ t p s. Grown-other _ _ s;
    appends = λ id a. Grown-update_at id (add_addendum a) (λ x y e. r x y a);
  };
  logs = Grown-log_dedup;
  audits = Grown-log_audit;
  drops = λ rows s. Grown-other rows s.next_id s;
}

Kept-Open : {origin : Db} → Open (Grown Kept origin)
unfolding add_addendum
Kept-Open = Grown-Open (λ x y a (m, s). (SameMemory-add_addendum x y a m, s))

KeptBut-Open : {origin : Db} (old_id : ℕ) → Open (Grown (KeptBut old_id) origin)
unfolding add_addendum
KeptBut-Open old_id = Grown-Open (λ x y a (m, s). (SameMemory-add_addendum x y a m, s))

flip-KeptBut :
    (old_id : ℕ) (x y : Node) → y.id ≡ old_id → KeptBut old_id x y → KeptBut old_id x (flip y)
unfolding flip
flip-KeptBut old_id x y e (m, s) = (
  record {
    id = m.id;
    space = m.space;
    node_type = m.node_type;
    scope = m.scope;
    title = m.title;
    body = m.body;
    attrs = m.attrs;
    embedding = m.embedding;
    extra_search = m.extra_search;
    author = m.author;
  },
  inl (sym m.id ∙ e),
)

module _ {origin : Db} (old_id : ℕ) where
  Keeps-retire :
      (env : Env) (s : Session) (dropped : List DroppedAttr) (e : Envelope) (o : Option ℕ)
      → Keeps (Grown (KeptBut old_id) origin) (retire env s old_id dropped e o)
  unfolding retire
  Keeps-retire env s dropped e none = Keeps-pure _
  Keeps-retire env s dropped e (some id) =
      Keeps-bind (Keeps-insert_new_edge Grown-add_edge _ _ _ _) (λ added.
        Keeps-bind
          (Keeps-update_node _ s old_id flip (Grown-update_at old_id flip (flip-KeptBut old_id)))
          (λ _. Keeps-pure _))

  Keeps-supersede :
      (env : Env) (s : Session) (profile : String) (t : Option BandThresholds) (floor : Option ℤ)
      (inc : Incoming)
      → Keeps (Grown (KeptBut old_id) origin) (supersede env s profile t floor old_id inc)
  unfolding supersede replace replace_same_type downgrade_type validate_no_reserved_attrs
      validate_not_reserved_type sanitize_attrs_for_write
  Keeps-supersede env s profile t floor inc =
      let c = KeptBut-Open {origin = origin} old_id in
      Keeps-bind (Keeps-validate_links_shape _) (λ _. Keeps-bind (Keeps-require _ _) (λ _.
        Keeps-bind (Keeps-require _ _) (λ _.
          Keeps-bind (Keeps-resolve_config s profile t floor) (λ (bands, l).
            Keeps-bind (Keeps-gets _) (λ row. Keeps-bind (Keeps-or_raise _ _) (λ old.
              Keeps-bind (Keeps-require_writable c s _) (λ _.
                Keeps-bind (Keeps-require_writable c s _) (λ _. Keeps-bind (Keeps-require _ _) (λ _.
                  Keeps-bind (Keeps-bind (Keeps-gets _) (λ spec. Keeps-pure _)) (λ (attrs, dropped).
                    Keeps-if _ _ _
                      (Keeps-bind (Keeps-locked_core c env s _ bands _)
                        (λ e. Keeps-retire env s dropped e _))
                      (Keeps-bind (Keeps-locked_core c env s _ bands _) (λ e.
                        Keeps-bind (Keeps-relate_old c s _ _ _ _)
                          (λ added. Keeps-pure _)))))))))))))

-- A write that commits keeps every row of nodes, edges, dedup_log and audit_log, in order: a node
-- keeps its id, space, type, scope, title, body, embedding, search text, author, status and all its
-- attrs but `addenda`, and scopes, types and config are as before.
pub write-Grown :
    (env : Env) (s : Session) (profile : String) (t : Option BandThresholds) (floor : Option ℤ)
    (import_mode : Bool) (action : String) (inc : Incoming) (db : Db)
    → Ends (Grown Kept db) (write env s profile t floor import_mode action inc db)
write-Grown env s profile t floor import_mode action inc db =
    (Keeps-write Kept-Open env s profile t floor import_mode action inc).at db
      (Grown-refl (λ x. (SameMemory-refl x, refl)))

-- A resolution that commits keeps every row of nodes, edges, dedup_log and audit_log in the same
-- sense as a write does.
pub resolve_duplicate-Grown :
    (env : Env) (s : Session) (profile : String) (t : Option BandThresholds) (floor : Option ℤ)
    (pending_id : ℕ) (name : String) (merge_into : Option ℕ) (db : Db)
    → Ends (Grown Kept db) (resolve_duplicate env s profile t floor pending_id name merge_into db)
resolve_duplicate-Grown env s profile t floor pending_id name merge_into db =
    (Keeps-resolve_duplicate Kept-Open env s profile t floor pending_id name merge_into).at db
      (Grown-refl (λ x. (SameMemory-refl x, refl)))

-- A supersede that commits keeps every row in the same sense, except that a node whose id is
-- `old_id` may change its status.
pub supersede-Grown :
    (env : Env) (s : Session) (profile : String) (t : Option BandThresholds) (floor : Option ℤ)
    (old_id : ℕ) (inc : Incoming) (db : Db)
    → Ends (Grown (KeptBut old_id) db) (supersede env s profile t floor old_id inc db)
supersede-Grown env s profile t floor old_id inc db =
    (Keeps-supersede old_id env s profile t floor inc).at db (Grown-refl (KeptBut-refl old_id))
