-- ===== src/Core/Dedup/Accounts/Write.antt =====
-- engraphy/core/dedup.py: `_locked_core` and `write` account for what they are given.
use mathlib.Core.Path.{subst}
use engraphy.Base.{
  ℕ, String, ◌≡◌, refl, ap, arith, Bool, true, false, Option, none, some, List, [], ◌∷◌, ℤ,
}
use engraphy.Core.Tx.Keeps.{Keeps-gets, Keeps-or_raise, Keeps-require, Keeps-bind}
use engraphy.Core.Tx.Leads.{
  Leads, Returns, Leads-pure, Leads-if, Leads-or_raise, Leads-modify, Leads-bind, Leads-after,
  Leads-gets, Leads-known,
}
use engraphy.Core.Store.{Db, Node, Session, PendingRow, log_dedup, log_audit}
use engraphy.Core.Dedup.Bands.{BandThresholds, Band}
use engraphy.Core.Dedup.Envelope.{
  Env, Incoming, Envelope, inserted, merged, merged_linked, needs_confirmation, review_queued,
  merged_silently, merged_linked_silently,
}
use engraphy.Core.Dedup.Branches.{do_review_queue, first_row}
use engraphy.Core.Dedup.Write.{
  Flags, stripped, pending_branch, merge_band_branch, for_log, run_band, write_logs, locked_core,
  write, spec_for, sanitized, sanitize_attrs_for_write, require_writable,
  validate_no_reserved_attrs, validate_not_reserved_type,
}
use engraphy.Core.Dedup.Moves.{
  Keeps-candidate_rows, Keeps-resolve_canonical, Keeps-validate_links_shape, Keeps-resolve_config,
}
use engraphy.Core.Dedup.Accounts.{
  Accounted, Leads-merge_branch, Leads-insert_branch, Leads-do_pending,
}

module _ (env : Env) (s : Session) (inc : Incoming) (db : Db) where
  Accounted-stripped :
      (b : Bool) (e : Envelope) (nodes : List Node) (pending : List PendingRow)
      → Accounted env s inc db e nodes pending
      → Accounted env s inc db (stripped b e) nodes pending
  unfolding stripped
  Accounted-stripped false e nodes pending h = h
  Accounted-stripped true (inserted v) nodes pending h = h
  Accounted-stripped true (merged v sim added counts) nodes pending h = (v.id, h)
  Accounted-stripped true (merged_linked v c sim added) nodes pending (h, j) = (v, c, h, j)
  Accounted-stripped true (needs_confirmation i expires rows) nodes pending h = h
  Accounted-stripped true (review_queued title body row) nodes pending h = h
  Accounted-stripped true (merged_silently added) nodes pending h = h
  Accounted-stripped true merged_linked_silently nodes pending h = h

  first_row-Accounted :
      (rows : List _) (e : Envelope)
      → first_row inc.title inc.body rows ≡ some e
      → (nodes : List Node) (pending : List PendingRow) → Accounted env s inc db e nodes pending
  unfolding first_row
  first_row-Accounted [] e h nodes pending = let no : ⊥ = ground arith in elim no [ ]
  first_row-Accounted (c ∷ cs) e h nodes pending =
      subst (λ x. Accounted env s inc db x nodes pending)
        (ap (λ o. elim o [ none ↦ e | some x ↦ x ]) h) (refl, refl)

  Leads-do_review_queue :
      (rows : List (ℕ × ℕ))
      → Leads
          (λ t. t ≡ db)
          (do_review_queue env s inc rows)
          (λ e t. Accounted env s inc db e t.nodes t.pending)
  unfolding do_review_queue
  Leads-do_review_queue rows =
      Leads-after (Keeps-candidate_rows env s rows)
        (λ rs. Leads-or_raise _ _ (λ e h t k. first_row-Accounted rs e h t.nodes t.pending))

  Leads-run_band :
      (f : Flags) (b : Band) (rows : List (ℕ × ℕ))
      → Leads
          (λ t. t ≡ db)
          (run_band env s inc f b rows)
          (λ (node, band, e) t. Accounted env s inc db e t.nodes t.pending)
  unfolding run_band pending_branch merge_band_branch for_log
  Leads-run_band f Band.merge rows = Leads-after (Keeps-or_raise _ _) (λ id.
      Leads-after (Keeps-resolve_canonical s id) (λ canonical.
        Leads-bind (Leads-merge_branch env s inc db canonical _) (λ (node, band, e).
          Leads-pure _ (λ t h. Accounted-stripped f.import_mode e t.nodes t.pending h))))
  Leads-run_band f Band.pending rows =
      Leads-if f.collapse_pending_to_insert _ _ (λ _. Leads-insert_branch env s inc db)
        (λ _.
          Leads-bind
            (Leads-if f.import_mode _ _ (λ _. Leads-do_review_queue rows)
              (λ _. Leads-do_pending env s inc db rows))
            (λ e. Leads-pure _ (λ t h. h)))
  Leads-run_band f Band.insert rows = Leads-insert_branch env s inc db

  pub Leads-locked_core :
      (bands : BandThresholds) (f : Flags)
      → Leads
          (λ t. t ≡ db)
          (locked_core env s inc bands f)
          (λ e t. Accounted env s inc db e t.nodes t.pending)
  unfolding locked_core write_logs log_dedup log_audit
  Leads-locked_core bands f = Leads-gets _ _ (
      Leads-bind (Leads-run_band f _ _) (λ (node, band, e).
        Leads-bind
          (Leads-modify {Q = λ _ t. Accounted env s inc db e t.nodes t.pending} _ (λ t h. h))
          (λ _.
            Leads-bind
              (Leads-modify {Q = λ _ t. Accounted env s inc db e t.nodes t.pending} _ (λ t h. h))
              (λ _. Leads-pure _ (λ t h. h)))))

-- The arguments as the pipeline gets them, with the attrs that survive the type's spec.
abbrev pub cleaned : Env → Session → Db → Incoming → Incoming
cleaned env s db inc = record inc {
  attrs = (sanitized env.dates (spec_for s inc.node_type db) inc.attrs).0;
}

Leads-write :
    (env : Env) (s : Session) (profile : String) (t : Option BandThresholds) (floor : Option ℤ)
    (import_mode : Bool) (action : String) (inc : Incoming) (db : Db)
    → Leads
        (λ t. t ≡ db)
        (write env s profile t floor import_mode action inc)
        (λ reply after.
          Accounted env s (cleaned env s db inc) db reply.envelope after.nodes after.pending)
unfolding write validate_no_reserved_attrs validate_not_reserved_type sanitize_attrs_for_write
    require_writable
Leads-write env s profile t floor import_mode action inc db =
    Leads-after (Keeps-validate_links_shape _) (λ _. Leads-after (Keeps-require _ _) (λ _.
      Leads-after (Keeps-require _ _) (λ _.
        Leads-after (Keeps-bind (Keeps-gets _) (λ w. Keeps-require _ _)) (λ _.
          Leads-after (Keeps-resolve_config s profile t floor) (λ (bands, l).
            Leads-known (sanitized env.dates (spec_for s inc.node_type db) inc.attrs) _
              (Leads-gets _ _ (Leads-pure _ (λ t h. (refl, h))))
              (Leads-bind (Leads-locked_core env s (cleaned env s db inc) db bands _)
                (λ e. Leads-pure _ (λ t h. h))))))))

-- Every write that commits accounts for its text: an `inserted` or `merged_linked` reply shows the
-- new node, which stands in the table with the caller's title, body, type, scope and embedding and
-- the sanitised attrs, and a `merged_linked` body was novel to its canonical's cluster; a `merged`
-- body was not novel to the cluster of the node shown; a `needs_confirmation` reply names a row of
-- pending_writes that holds the whole payload for 24 hours; a `review_queued` reply carries the title
-- and the body. Of the two stripped replies of import mode, `merged_silently` is given only for a body
-- that was not novel to a cluster, and `merged_linked_silently` only with the new node in the table and
-- a body that was novel to a cluster.
pub write-Accounted :
    (env : Env) (s : Session) (profile : String) (t : Option BandThresholds) (floor : Option ℤ)
    (import_mode : Bool) (action : String) (inc : Incoming) (db : Db)
    → Returns
        (λ reply after.
          Accounted env s (cleaned env s db inc) db reply.envelope after.nodes after.pending)
        (write env s profile t floor import_mode action inc db)
write-Accounted env s profile t floor import_mode action inc db =
    (Leads-write env s profile t floor import_mode action inc db).at db refl
