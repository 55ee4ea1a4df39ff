-- ===== src/Core/Dedup/Steps.antt =====
-- What keeps a predicate on the tables through `write`, `resolve_duplicate` and `supersede`.
use engraphy.Base.{ℕ, String, string_eq, nat_eq, Bool, Option, none, some, List, [], ◌∷◌, ◌++◌, ℤ}
use engraphy.Core.Tx.Keeps.{
  Keeps, Keeps-pure, Keeps-gets, Keeps-or_raise, Keeps-require, Keeps-modify, Keeps-if, Keeps-bind,
}
use engraphy.Core.Store.{Db, Session, Candidate, Payload, PendingRow, DedupRow, AuditRow}
use engraphy.Core.Store.Moves.{Keeps-log_dedup, Keeps-log_audit, Keeps-insert_edge}
use engraphy.Core.Dedup.Bands.{BandThresholds}
use engraphy.Core.Dedup.Envelope.{
  Env, Incoming, Envelope, inserted, merged, merged_linked, needs_confirmation, review_queued,
  merged_silently, merged_linked_silently,
}
use engraphy.Core.Dedup.Write.{
  Flags, locked_core, write_logs, write, require_writable, validate_no_reserved_attrs,
  validate_not_reserved_type, sanitize_attrs_for_write,
}
use engraphy.Core.Dedup.Resolve.{
  resolve_duplicate, run_resolution, resolve_distinct, resolve_merge, relate,
  attach_relates_to_nearest_active, log_merge, delete_pending, Resolution, distinct, merge,
}
use engraphy.Core.Dedup.Supersede.{relate_old}
use engraphy.Core.Dedup.Moves.{
  Closed, Keeps-validate_links_shape, Keeps-resolve_config, Keeps-resolve_canonical,
  Keeps-merge_branch, Keeps-run_band,
}

-- What a write path does to the tables keeps `P`: its branches, its logs, and the end of a parked
-- write.
pub record Open (P : Db → Type 0) : Type 0 where
  pub closed : Closed P
  pub logs : (r : DedupRow) (s : Db) → P s → P (record s { dedup_log = s.dedup_log ++ r ∷ [] })
  pub audits : (r : AuditRow) (s : Db) → P s → P (record s { audit_log = s.audit_log ++ r ∷ [] })
  pub drops : (rows : List PendingRow) (s : Db) → P s → P (record s { pending = rows })

module _ {P : Db → Type 0} (c : Open P) where
  pub Keeps-locked_core :
      (env : Env) (s : Session) (inc : Incoming) (bands : BandThresholds) (f : Flags)
      → Keeps P (locked_core env s inc bands f)
  unfolding locked_core write_logs
  Keeps-locked_core env s inc bands f = Keeps-bind (Keeps-gets _) (λ candidates.
      Keeps-bind (Keeps-run_band c.closed env s inc f _ candidates) (λ outcome.
        Keeps-bind (Keeps-log_dedup _ (c.logs _))
          (λ _. Keeps-bind (Keeps-log_audit _ (c.audits _)) (λ _. Keeps-pure _))))

  pub Keeps-require_writable : (s : Session) (scope : String) → Keeps P (require_writable s scope)
  unfolding require_writable
  Keeps-require_writable s scope = Keeps-bind (Keeps-gets _) (λ w. Keeps-require _ _)

  pub Keeps-write :
      (env : Env) (s : Session) (profile : String) (t : Option BandThresholds) (floor : Option ℤ)
      (import_mode : Bool) (action : String) (inc : Incoming)
      → Keeps P (write env s profile t floor import_mode action inc)
  unfolding write validate_no_reserved_attrs validate_not_reserved_type sanitize_attrs_for_write
  Keeps-write env s profile t floor import_mode action inc =
      Keeps-bind (Keeps-validate_links_shape _) (λ _. Keeps-bind (Keeps-require _ _) (λ _.
        Keeps-bind (Keeps-require _ _) (λ _. Keeps-bind (Keeps-require_writable s _) (λ _.
          Keeps-bind (Keeps-resolve_config s profile t floor) (λ (bands, l).
            Keeps-bind (Keeps-bind (Keeps-gets _) (λ spec. Keeps-pure _)) (λ (attrs, dropped).
              Keeps-bind (Keeps-locked_core env s _ bands _) (λ e. Keeps-pure _)))))))

  pub Keeps-attach_nearest :
      (s : Session) (node : ℕ) (candidates : List Candidate)
      → Keeps P (attach_relates_to_nearest_active s node candidates)
  unfolding attach_relates_to_nearest_active
  Keeps-attach_nearest s node [] = Keeps-pure _
  Keeps-attach_nearest s node (x ∷ xs) =
      let rest = Keeps-attach_nearest s node xs in
      Keeps-bind (Keeps-gets _) (λ row.
        Keeps-if _ _ _ (Keeps-bind (Keeps-insert_edge c.closed.relates _ _ _ _) (λ _. Keeps-pure _))
          rest)

  pub Keeps-relate :
      (s : Session) (candidates : List Candidate) (e : Envelope) → Keeps P (relate s candidates e)
  unfolding relate
  Keeps-relate s cs (inserted v) =
      Keeps-bind (Keeps-attach_nearest s v.id cs) (λ added. Keeps-pure _)
  Keeps-relate s cs (merged v sim added counts) = Keeps-pure _
  Keeps-relate s cs (merged_linked v id sim added) = Keeps-pure _
  Keeps-relate s cs (needs_confirmation id expires rows) = Keeps-pure _
  Keeps-relate s cs (review_queued title body row) = Keeps-pure _
  Keeps-relate s cs (merged_silently added) = Keeps-pure _
  Keeps-relate s cs merged_linked_silently = Keeps-pure _

  pub Keeps-run_resolution :
      (env : Env) (s : Session) (bands : BandThresholds) (r : Resolution) (p : Payload)
      → Keeps P (run_resolution env s bands r p)
  unfolding run_resolution resolve_distinct resolve_merge log_merge
  Keeps-run_resolution env s bands distinct p =
      Keeps-bind (Keeps-locked_core env s _ bands _) (λ e. Keeps-relate s _ e)
  Keeps-run_resolution env s bands (merge id) p =
      Keeps-bind (Keeps-resolve_canonical s id) (λ canonical. Keeps-bind (Keeps-gets _) (λ row.
        Keeps-bind (Keeps-or_raise _ _) (λ target. Keeps-bind (Keeps-require _ _) (λ _.
          Keeps-bind (Keeps-merge_branch c.closed env s canonical _ _)
            (λ outcome. Keeps-bind (Keeps-log_dedup _ (c.logs _)) (λ _. Keeps-pure _))))))

  pub Keeps-resolve_duplicate :
      (env : Env) (s : Session) (profile : String) (t : Option BandThresholds) (floor : Option ℤ)
      (pending_id : ℕ) (name : String) (merge_into : Option ℕ)
      → Keeps P (resolve_duplicate env s profile t floor pending_id name merge_into)
  unfolding resolve_duplicate delete_pending
  Keeps-resolve_duplicate env s profile t floor pending_id name merge_into =
      Keeps-bind (Keeps-or_raise _ _) (λ resolution.
        Keeps-bind (Keeps-resolve_config s profile t floor) (λ (bands, l).
          Keeps-bind (Keeps-gets _) (λ found. Keeps-bind (Keeps-or_raise _ _) (λ row.
            Keeps-bind (Keeps-gets _) (λ now. Keeps-bind (Keeps-require _ _) (λ _.
              Keeps-bind (Keeps-require_writable s _) (λ _.
                Keeps-bind (Keeps-run_resolution env s bands resolution _) (λ reply.
                  Keeps-bind (Keeps-modify _ (λ db. c.drops _ db)) (λ _. Keeps-pure _)))))))))

  pub Keeps-relate_old :
      (s : Session) (new_type old_type : String) (old_id : ℕ) (o : Option ℕ)
      → Keeps P (relate_old s new_type old_type old_id o)
  unfolding relate_old
  Keeps-relate_old s new_type old_type old_id none = Keeps-pure _
  Keeps-relate_old s new_type old_type old_id (some id) =
      Keeps-bind (Keeps-gets _)
        (λ ruled. Keeps-if _ _ _ (Keeps-insert_edge c.closed.relates _ _ _ _) (Keeps-pure _))
