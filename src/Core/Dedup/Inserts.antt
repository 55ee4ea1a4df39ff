-- ===== src/Core/Dedup/Inserts.antt =====
-- engraphy/core/dedup.py: a write that meets the checks commits.
use engraphy.Base.{
  All, String, ◌≡◌, refl, ◌∙◌, ap, Bool, true, false, not, none, some, [], ◌∷◌, ◌++◌, ℤ, any,
  contains, string_eq,
}
use engraphy.Core.Json.{keys}
use engraphy.Core.AttrSpec.{reserved_attr_keys}
use engraphy.Core.Tx.{Result, ok}
use engraphy.Core.Tx.Runs.{require-ok, modify-ok, pure-ok, gets-ok, bind-ok}
use engraphy.Core.Store.{
  Db, Node, Session, node_error, unless_error, insert_node, append_node, writable_scopes, log_dedup,
  log_audit,
}
use engraphy.Core.Dedup.Bands.{
  BandThresholds, Band, select_band, in_order, resolve_config, resolve_bands, resolve_floor,
}
use engraphy.Core.Dedup.Links.{validate_links_shape, attach_links}
use engraphy.Core.Dedup.Envelope.{Env, Incoming, Envelope, inserted}
use engraphy.Core.Dedup.Candidates.{candidate_query}
use engraphy.Core.Dedup.Candidates.Far.{IsFar, candidate_query-insert}
use engraphy.Core.Dedup.Branches.{new_node, view_of, do_insert}
use engraphy.Core.Dedup.Write.{
  Flags, insert_branch, run_band, write_logs, locked_core, max_similarity, write, require_writable,
  sanitize_attrs_for_write, validate_no_reserved_attrs, validate_not_reserved_type,
  reserved_node_types, spec_for, sanitized, plain_reply,
}
use engraphy.Core.Dedup.Accounts.Write.{cleaned}

-- The tables with the row at the end of the nodes, and with the edges and the pending writes as they
-- were.
abbrev pub Extended : Node → Db → Db → Type 0
Extended n db after =
    (after.nodes ≡ db.nodes ++ n ∷ []) × (after.edges ≡ db.edges) × (after.pending ≡ db.pending)

-- The action commits with an envelope that shows the node, and has added just this node.
abbrev pub Inserts : Node → Db → Result (Envelope × Db) → Type 0
Inserts n db r = (after : Db) × (r ≡ ok (inserted (view_of n), after)) × Extended n db after

do_insert-ok :
    (env : Env) (s : Session) (inc : Incoming) (db : Db)
    → node_error env.dates s (new_node env s inc db) db ≡ none
    → do_insert env s inc db
      ≡ ok (view_of (new_node env s inc db), append_node (new_node env s inc db) db)
unfolding do_insert insert_node unless_error
do_insert-ok env s inc db h =
    let n = new_node env s inc db in
    bind-ok _ _ db (gets-ok (new_node env s inc) db) (
      bind-ok _ _ db
        (bind-ok _ _ db (gets-ok _ db ∙ ap (λ o. ok (o, db)) h)
          (bind-ok _ _ db (pure-ok tt db) (modify-ok (append_node n) db)))
        (pure-ok _ _))

locked_core-Inserts :
    (env : Env) (s : Session) (inc : Incoming) (bands : BandThresholds) (f : Flags) (db : Db)
    → inc.links ≡ []
    → select_band
        (max_similarity
          (candidate_query env s inc.node_type inc.scope inc.embedding f.exclude_id db))
        bands
      ≡ Band.insert
    → node_error env.dates s (new_node env s inc db) db ≡ none
    → Inserts (new_node env s inc db) db (locked_core env s inc bands f db)
unfolding locked_core run_band insert_branch write_logs log_dedup log_audit attach_links append_node
locked_core-Inserts env s inc bands f db no_links band fits =
    let n = new_node env s inc db in
    let v = view_of n in
    let rows = candidate_query env s inc.node_type inc.scope inc.embedding f.exclude_id db in
    (
      _,
      bind-ok _ _ db (gets-ok _ db) (
          bind-ok _ _ db
            (ap (λ b. run_band env s inc f b rows db) band
              ∙ bind-ok _ _ db (do_insert-ok env s inc db fits) (
                  bind-ok _ _ _
                    (ap (λ ls. attach_links s v.id ls (append_node n db)) no_links ∙ pure-ok _ _)
                    (pure-ok _ _)))
            (bind-ok _ _ _ (modify-ok _ _) (bind-ok _ _ _ (modify-ok _ _) (pure-ok _ _)))),
      (refl, refl, refl),
    )

-- The checks of `write` before its pipeline.
abbrev pub Admitted : Session → Incoming → Db → Type 0
Admitted s inc db =
    (inc.links ≡ [])
    × (any (contains (keys inc.attrs)) reserved_attr_keys ≡ false)
    × (contains reserved_node_types inc.node_type ≡ false)
    × (contains (writable_scopes s db) inc.scope ≡ true)

-- A write with no links and no reserved key or type, into a scope that is writable, with thresholds
-- in order and a floor given, always commits as `inserted` if each of its candidates, the visible and
-- active rows of its type in its scope or an ambient one, is less similar than the lower threshold,
-- and the tables accept the new row with the sanitised attrs: its reply shows that row, which is the only one
-- added to the nodes, at their end, and the edges and the pending writes are as they were.
pub write-Inserts :
    (env : Env) (s : Session) (profile : String) (bands : BandThresholds) (floor : ℤ)
    (import_mode : Bool) (action : String) (inc : Incoming) (db : Db)
    → Admitted s inc db
    → in_order bands ≡ true
    → All (IsFar env s inc bands db) db.nodes
    → node_error env.dates s (new_node env s (cleaned env s db inc) db) db ≡ none
    → (after : Db) × (write env s profile (some bands) (some floor) import_mode action inc db
        ≡ ok (
          plain_reply
              (inserted (view_of (new_node env s (cleaned env s db inc) db)))
              (sanitized env.dates (spec_for s inc.node_type db) inc.attrs).1,
          after,
        ))
      × Extended (new_node env s (cleaned env s db inc) db) db after
unfolding write validate_links_shape validate_no_reserved_attrs validate_not_reserved_type
    require_writable resolve_config resolve_bands resolve_floor sanitize_attrs_for_write
    max_similarity
write-Inserts env s profile bands floor import_mode action inc db (links, attrs, typed, writable)
      ordered far fits =
    let band = candidate_query-insert bands env s inc db ordered far in
    let (after, core, extended) =
      locked_core-Inserts env s (cleaned env s db inc) bands _ db links band fits in
    (
      after,
      bind-ok _ _ db (ap (λ ls. validate_links_shape ls db) links ∙ pure-ok _ _) (
          bind-ok _ _ db (require-ok _ _ db (ap not attrs)) (
            bind-ok _ _ db (require-ok _ _ db (ap not typed)) (
              bind-ok _ _ db (bind-ok _ _ db (gets-ok _ _) (require-ok _ _ db writable)) (
                bind-ok _ _ db
                  (bind-ok _ _ db (pure-ok _ _) (bind-ok _ _ db (pure-ok _ _) (pure-ok _ _)))
                  (bind-ok _ _ db (bind-ok _ _ db (gets-ok _ _) (pure-ok _ _))
                    (bind-ok _ _ db core (pure-ok _ _))))))),
      extended,
    )
