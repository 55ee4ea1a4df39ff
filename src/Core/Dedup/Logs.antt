-- ===== src/Core/Dedup/Logs.antt =====
-- engraphy/core/dedup.py: the rows that `write` leaves in dedup_log and audit_log.
use engraphy.Base.{
  String, ◌≡◌, refl, sym, ap, Bool, true, false, Option, List, [], ◌∷◌, ◌++◌, ℤ, if◌then◌else◌,
}
use engraphy.Core.Tx.Keeps.{Keeps-pure, Keeps-gets, Keeps-require, Keeps-bind}
use engraphy.Core.Tx.Leads.{Leads, Returns, Leads-pure, Leads-modify, Leads-bind, Leads-after}
use engraphy.Core.Store.{
  Db, Edge, Session, DedupRow, AuditRow, append_node, add_edge, has_edge, log_dedup, log_audit,
}
use engraphy.Core.Dedup.Bands.{BandThresholds}
use engraphy.Core.Dedup.Envelope.{Env, Incoming}
use engraphy.Core.Dedup.Branches.{park}
use engraphy.Core.Dedup.Write.{
  Flags, write_logs, locked_core, write, sanitize_attrs_for_write, require_writable,
  validate_no_reserved_attrs, validate_not_reserved_type,
}
use engraphy.Core.Dedup.Moves.{
  Closed, Keeps-run_band, Keeps-validate_links_shape, Keeps-resolve_config,
}

snoc-≡ : {A : Type 0} {xs ys : List A} (x : A) → xs ≡ ys → xs ++ x ∷ [] ≡ ys ++ x ∷ []
snoc-≡ x e = ap (λ l. l ++ x ∷ []) e

-- Neither log has changed.
abbrev SameLogs : Db → Db → Type 0
SameLogs db t = (t.dedup_log ≡ db.dedup_log) × (t.audit_log ≡ db.audit_log)

SameLogs-add_edge : (db : Db) (e : Edge) (t : Db) → SameLogs db t → SameLogs db (add_edge e t)
unfolding add_edge
SameLogs-add_edge db e t h = go (has_edge e.src e.dst e.edge_type t)
  where
    go : (b : Bool) → SameLogs db (if b then t else record t { edges = t.edges ++ e ∷ [] })
    go true = h
    go false = h

SameLogs-Closed : (db : Db) → Closed (SameLogs db)
unfolding append_node park
SameLogs-Closed db = record {
  inserts = λ n t h. h;
  relates = SameLogs-add_edge db;
  parks = λ t p u h. h;
  appends = λ id a t h. h;
}

-- One row more in each log, for this write and the node that it ended at.
abbrev pub Logged : Session → Incoming → String → Db → Db → Type 0
Logged s inc action db after =
    (r : DedupRow) × (a : AuditRow) × (after.dedup_log ≡ db.dedup_log ++ r ∷ [])
    × (after.audit_log ≡ db.audit_log ++ a ∷ [])
    × (r.node_type ≡ inc.node_type)
    × (r.author ≡ s.principal)
    × (a.principal ≡ s.principal)
    × (a.client_name ≡ inc.source_client)
    × (a.action ≡ action)
    × (a.node ≡ r.node)

Leads-locked_core :
    (env : Env) (s : Session) (inc : Incoming) (db : Db) (bands : BandThresholds) (f : Flags)
    → Leads
        (SameLogs db)
        (locked_core env s inc bands f)
        (λ e after. Logged s inc f.action db after)
unfolding locked_core write_logs log_dedup log_audit
Leads-locked_core env s inc db bands f = Leads-after (Keeps-gets _) (λ candidates.
    Leads-after (Keeps-run_band (SameLogs-Closed db) env s inc f _ candidates) (λ (node, band, e).
      Leads-bind
        (Leads-modify
          {Q = λ _ t.
            (r : DedupRow) × (t.dedup_log ≡ db.dedup_log ++ r ∷ [])
            × (t.audit_log ≡ db.audit_log)
            × (r.node_type ≡ inc.node_type)
            × (r.author ≡ s.principal)
            × (r.node ≡ node)}
          _ (λ t (d, a). (_, snoc-≡ _ d, a, refl, refl, refl)))
        (λ _.
          Leads-bind
            (Leads-modify {Q = λ _ t. Logged s inc f.action db t} _
              (λ t (r, d, a, k, p, n). (r, _, d, snoc-≡ _ a, k, p, refl, refl, refl, sym n)))
            (λ _. Leads-pure _ (λ t h. h)))))

Leads-write :
    (env : Env) (s : Session) (profile : String) (t : Option BandThresholds) (floor : Option ℤ)
    (import_mode : Bool) (action : String) (inc : Incoming) (db : Db)
    → Leads
        (SameLogs db)
        (write env s profile t floor import_mode action inc)
        (λ reply after. Logged s inc action db after)
unfolding write validate_no_reserved_attrs validate_not_reserved_type sanitize_attrs_for_write
    require_writable
Leads-write env s profile t floor import_mode action inc db =
    Leads-after (Keeps-validate_links_shape _) (λ _. Leads-after (Keeps-require _ _) (λ _.
      Leads-after (Keeps-require _ _) (λ _.
        Leads-after (Keeps-bind (Keeps-gets _) (λ w. Keeps-require _ _)) (λ _.
          Leads-after (Keeps-resolve_config s profile t floor) (λ (bands, l).
            Leads-after (Keeps-bind (Keeps-gets _) (λ spec. Keeps-pure _)) (λ (attrs, dropped).
              Leads-bind (Leads-locked_core env s (record inc { attrs = attrs }) db bands _)
                (λ e. Leads-pure _ (λ t h. h))))))))

-- A write that commits adds exactly one row to dedup_log and one to audit_log, whatever its band:
-- the first has the type written and the author, the second the principal, the client and the
-- action, and both name the same node or both none.
pub write-Logged :
    (env : Env) (s : Session) (profile : String) (t : Option BandThresholds) (floor : Option ℤ)
    (import_mode : Bool) (action : String) (inc : Incoming) (db : Db)
    → Returns
        (λ reply after. Logged s inc action db after)
        (write env s profile t floor import_mode action inc db)
write-Logged env s profile t floor import_mode action inc db =
    (Leads-write env s profile t floor import_mode action inc db).at db (refl, refl)
