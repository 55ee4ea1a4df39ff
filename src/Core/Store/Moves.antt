-- ===== src/Core/Store/Moves.antt =====
-- What keeps a predicate on the tables through the statements of Store.
use engraphy.Base.{ℕ, String, Option, none, some, [], ◌∷◌, ◌++◌}
use engraphy.Core.AttrSpec.{Dates}
use engraphy.Core.Tx.{Error}
use engraphy.Core.Tx.Keeps.{
  Keeps, Keeps-require, Keeps-pure, Keeps-raise, Keeps-modify, Keeps-gets, Keeps-bind,
}
use engraphy.Core.Store.{
  Db, Node, Edge, Session, DedupRow, AuditRow, append_node, add_edge, update_at, rewrite_row,
  insert_node, insert_edge, insert_new_edge, update_node, unless_error, log_dedup, log_audit,
}

module _ {P : Db → Type 0} where
  pub Keeps-unless_error : (e : Option Error) → Keeps P (unless_error e)
  unfolding unless_error
  Keeps-unless_error none = Keeps-pure tt
  Keeps-unless_error (some e) = Keeps-raise e

  pub Keeps-insert_node :
      ((n : Node) (s : Db) → P s → P (append_node n s))
      → (dates : Dates) (s : Session) (n : Node) → Keeps P (insert_node dates s n)
  unfolding insert_node
  Keeps-insert_node h dates s n =
      Keeps-bind (Keeps-gets _) (λ e. Keeps-bind (Keeps-unless_error e) (λ _. Keeps-modify _ (h n)))

  pub Keeps-insert_edge :
      ((e : Edge) (s : Db) → P s → P (add_edge e s))
      → (s : Session) (src dst : ℕ) (edge_type : String) → Keeps P (insert_edge s src dst edge_type)
  unfolding insert_edge
  Keeps-insert_edge h s src dst edge_type = Keeps-bind (Keeps-gets _) (λ a.
      Keeps-bind (Keeps-gets _) (λ b. Keeps-bind (Keeps-gets _) (λ e.
        Keeps-bind (Keeps-unless_error e) (λ _.
          Keeps-bind (Keeps-gets _)
            (λ there. Keeps-bind (Keeps-modify _ (h _)) (λ _. Keeps-pure _))))))

  pub Keeps-insert_new_edge :
      ((e : Edge) (s : Db) → P s → P (add_edge e s))
      → (s : Session) (src dst : ℕ) (edge_type : String)
      → Keeps P (insert_new_edge s src dst edge_type)
  unfolding insert_new_edge
  Keeps-insert_new_edge h s src dst edge_type =
      Keeps-bind (Keeps-insert_edge h s src dst edge_type) (λ added. Keeps-require _ _)

  Keeps-rewrite_row :
      (id : ℕ) (f : Node → Node) (n : Option Node)
      → ((db : Db) → P db → P (record db { nodes = update_at id f db.nodes }))
      → (db : Db) → P db
      → P (rewrite_row id f n db)
  unfolding rewrite_row
  Keeps-rewrite_row id f none h db k = k
  Keeps-rewrite_row id f (some n) h db k = h db k

  pub Keeps-update_node :
      (dates : Dates) (s : Session) (id : ℕ) (f : Node → Node)
      → ((db : Db) → P db → P (record db { nodes = update_at id f db.nodes }))
      → Keeps P (update_node dates s id f)
  unfolding update_node
  Keeps-update_node dates s id f h = Keeps-bind (Keeps-gets _) (λ n.
      Keeps-bind (Keeps-gets _)
        (λ e. Keeps-bind (Keeps-unless_error e) (λ _. Keeps-modify _ (Keeps-rewrite_row id f n h))))

  pub Keeps-log_dedup :
      (r : DedupRow)
      → ((s : Db) → P s → P (record s { dedup_log = s.dedup_log ++ r ∷ [] }))
      → Keeps P (log_dedup r)
  unfolding log_dedup
  Keeps-log_dedup r h = Keeps-modify _ h

  pub Keeps-log_audit :
      (r : AuditRow)
      → ((s : Db) → P s → P (record s { audit_log = s.audit_log ++ r ∷ [] }))
      → Keeps P (log_audit r)
  unfolding log_audit
  Keeps-log_audit r h = Keeps-modify _ h
