-- ===== src/Tests/Writes.antt =====
-- The write path on the sample space.
use engraphy.Base.{ℕ, String, ◌≡◌, refl, Option, none, some, List, [], ◌∷◌, ℤ, pos, true, false}
use engraphy.Core.Tx.{Result, ok, err}
use engraphy.Core.Tx.Keeps.{Ends}
use engraphy.Core.Tx.Leads.{Returns}
use engraphy.Core.Store.{Db}
use engraphy.Core.Store.Growth.{Grown, Kept}
use engraphy.Core.Dedup.Envelope.{
  Reply, Envelope, inserted, merged, merged_linked, needs_confirmation, review_queued,
  merged_silently, merged_linked_silently,
}
use engraphy.Core.Dedup.Write.{write}
use engraphy.Core.Dedup.Resolve.{resolve_duplicate}
use engraphy.Core.Dedup.Supersede.{supersede}
use engraphy.Base.{◌+◌, ◌≤◌, length, All}
use engraphy.Core.Jaccard.{is_novel}
use engraphy.Core.Store.{Node, Link, select_node}
use engraphy.Core.Dedup.Bands.{select_band, in_order, resolve_config}
use engraphy.Core.Dedup.Links.{attach_links}
use engraphy.Core.Dedup.Candidates.{nearest, next_canonical, resolve_canonical}
use engraphy.Core.Dedup.Accounts.{Accounted}
use engraphy.Core.Dedup.Accounts.Write.{cleaned, write-Accounted}
use engraphy.Core.Dedup.Preserves.{KeptBut, write-Grown, resolve_duplicate-Grown, supersede-Grown}
use engraphy.Core.Dedup.Logs.{Logged, write-Logged}
use engraphy.Core.Dedup.Resolutions.{Resolved, resolve_duplicate-Resolved}
use engraphy.Core.Json.{end}
use engraphy.Core.Dedup.Branches.{new_node, view_of}
use engraphy.Core.Dedup.Write.{plain_reply, sanitized, spec_for}
use engraphy.Core.Dedup.Inserts.{Extended, write-Inserts}
use engraphy.Core.Tx.{type_error}
use engraphy.Core.Store.{Payload}
use engraphy.Core.Dedup.Resolve.{Resolution, run_resolution}
use engraphy.Tests.Samples.{parked}
use engraphy.Tests.Samples.{env, alice, bands, far, between, restated, novel, db}

outcome : Envelope → String
outcome (inserted v) = "inserted"
outcome (merged v sim added counts) = "merged"
outcome (merged_linked v id sim added) = "merged_linked"
outcome (needs_confirmation id expires rows) = "needs_confirmation"
outcome (review_queued title body row) = "review_queued"
outcome (merged_silently added) = "merged_silently"
outcome merged_linked_silently = "merged_linked_silently"

outcome_text : Result (Reply × Db) → String
unfolding outcome
outcome_text (ok (r, t)) = outcome r.envelope
outcome_text (err e) = "error"

every_outcome :
    (outcome_text (write env alice "fp32" (some bands) (some (pos 750000)) false "write" far db)
      ≡ "inserted")
    × (outcome_text
          (write env alice "fp32" (some bands) (some (pos 750000)) false "write" between db)
        ≡ "needs_confirmation")
    × (outcome_text
          (write env alice "fp32" (some bands) (some (pos 750000)) false "write" restated db)
        ≡ "merged")
    × (outcome_text (write env alice "fp32" (some bands) (some (pos 750000)) false "write" novel db)
        ≡ "merged_linked")
    × (outcome_text
          (resolve_duplicate env alice "fp32" (some bands) (some (pos 750000)) 7 "distinct" none db)
        ≡ "inserted")
    × (outcome_text (
          resolve_duplicate env alice "fp32" (some bands) (some (pos 750000)) 7 "merge" (some 1) db)
        ≡ "merged_linked")
    × (outcome_text (supersede env alice "fp32" (some bands) (some (pos 750000)) 1 novel db)
        ≡ "inserted")
unfolding outcome_text engraphy.Core.Tx.◌>>=◌ engraphy.Core.Json.get engraphy.Core.Json.put
    engraphy.Core.Json.keys engraphy.Core.Json.without engraphy.Core.Json.has
    engraphy.Core.Json.sorted engraphy.Core.Json.items_append engraphy.Core.AttrSpec.find_rule
    engraphy.Core.AttrSpec.rule_of engraphy.Core.AttrSpec.date_re engraphy.Core.AttrSpec.check_value
    engraphy.Core.AttrSpec.value_error engraphy.Core.AttrSpec.bucket
    engraphy.Core.AttrSpec.presence_errors engraphy.Core.AttrSpec.condition_errors
    engraphy.Core.AttrSpec.unknown_errors engraphy.Core.AttrSpec.value_errors
    engraphy.Core.AttrSpec.validate_attrs engraphy.Core.AttrSpec.droppable
    engraphy.Core.AttrSpec.droppable_errors engraphy.Core.AttrSpec.entry
    engraphy.Core.AttrSpec.sanitize_attrs engraphy.Core.AttrSpec.searchable_keys
    engraphy.Core.Store.status_eq engraphy.Core.Store.readable_scopes
    engraphy.Core.Store.writable_scopes engraphy.Core.Store.ambient_scope_set
    engraphy.Core.Store.visible engraphy.Core.Store.select_node engraphy.Core.Store.has_rule
    engraphy.Core.Store.append_node engraphy.Core.Store.insert_node engraphy.Core.Store.has_edge
    engraphy.Core.Store.add_edge engraphy.Core.Store.insert_edge engraphy.Core.Store.insert_new_edge
    engraphy.Core.Store.log_dedup engraphy.Core.Store.log_audit engraphy.Core.Store.update_at
    engraphy.Core.Store.update_node engraphy.Core.Jaccard.token_eq engraphy.Core.Jaccard.distinct
    engraphy.Core.Jaccard.tokenize engraphy.Core.Jaccard.common engraphy.Core.Jaccard.union
    engraphy.Core.Jaccard.novel_tokens engraphy.Core.Jaccard.is_novel
    engraphy.Core.Dedup.Bands.for_profile engraphy.Core.Dedup.Bands.resonance_floor_default
    engraphy.Core.Dedup.Bands.select_band engraphy.Core.Dedup.Bands.config_float
    engraphy.Core.Dedup.Bands.resolve_bands engraphy.Core.Dedup.Bands.resolve_floor
    engraphy.Core.Dedup.Bands.resolve_config engraphy.Core.Dedup.Links.validate_links_shape
    engraphy.Core.Dedup.Links.attach_link engraphy.Core.Dedup.Links.tally
    engraphy.Core.Dedup.Links.attach_links engraphy.Core.Dedup.Candidates.is_candidate
    engraphy.Core.Dedup.Candidates.candidate_query engraphy.Core.Dedup.Candidates.nearer
    engraphy.Core.Dedup.Candidates.nearest engraphy.Core.Dedup.Candidates.best_of
    engraphy.Core.Dedup.Candidates.candidate_rows engraphy.Core.Dedup.Candidates.next_canonical
    engraphy.Core.Dedup.Candidates.chase engraphy.Core.Dedup.Candidates.resolve_canonical
    engraphy.Core.Dedup.Candidates.same_topic_peer_bodies engraphy.Core.Dedup.Candidates.addenda_of
    engraphy.Core.Dedup.Candidates.addenda_bodies engraphy.Core.Dedup.Candidates.join
    engraphy.Core.Dedup.Candidates.corpus_of engraphy.Core.Dedup.Branches.view_of
    engraphy.Core.Dedup.Branches.new_node engraphy.Core.Dedup.Branches.do_insert
    engraphy.Core.Dedup.Branches.first_row engraphy.Core.Dedup.Branches.do_review_queue
    engraphy.Core.Dedup.Branches.payload_of engraphy.Core.Dedup.Branches.park
    engraphy.Core.Dedup.Branches.do_pending engraphy.Core.Dedup.Branches.link_if_ruled
    engraphy.Core.Dedup.Branches.do_merge_link engraphy.Core.Dedup.Branches.is_reoccurrence
    engraphy.Core.Dedup.Branches.add_addendum engraphy.Core.Dedup.Branches.append_reoccurrence
    engraphy.Core.Dedup.Branches.note_reoccurrence engraphy.Core.Dedup.Branches.do_absorb
    engraphy.Core.Dedup.Branches.logged_as engraphy.Core.Dedup.Branches.merge_branch
    engraphy.Core.Dedup.Write.validate_no_reserved_attrs
    engraphy.Core.Dedup.Write.validate_not_reserved_type engraphy.Core.Dedup.Write.spec_for
    engraphy.Core.Dedup.Write.sanitized engraphy.Core.Dedup.Write.sanitize_attrs_for_write
    engraphy.Core.Dedup.Write.stripped engraphy.Core.Dedup.Write.insert_branch
    engraphy.Core.Dedup.Write.pending_branch engraphy.Core.Dedup.Write.for_log
    engraphy.Core.Dedup.Write.merge_band_branch engraphy.Core.Dedup.Write.run_band
    engraphy.Core.Dedup.Write.max_similarity engraphy.Core.Dedup.Write.write_logs
    engraphy.Core.Dedup.Write.locked_core engraphy.Core.Dedup.Write.require_writable
    engraphy.Core.Dedup.Write.write engraphy.Core.Dedup.Resolve.select_pending
    engraphy.Core.Dedup.Resolve.incoming_of engraphy.Core.Dedup.Resolve.is_active
    engraphy.Core.Dedup.Resolve.attach_relates_to_nearest_active engraphy.Core.Dedup.Resolve.relate
    engraphy.Core.Dedup.Resolve.resolve_distinct engraphy.Core.Dedup.Resolve.still_open
    engraphy.Core.Dedup.Resolve.log_merge engraphy.Core.Dedup.Resolve.resolve_merge
    engraphy.Core.Dedup.Resolve.run_resolution engraphy.Core.Dedup.Resolve.delete_pending
    engraphy.Core.Dedup.Resolve.resolve_duplicate engraphy.Core.Dedup.Supersede.replacement_of
    engraphy.Core.Dedup.Supersede.relate_old engraphy.Core.Dedup.Supersede.downgrade_type
    engraphy.Core.Dedup.Supersede.flip engraphy.Core.Dedup.Supersede.retire
    engraphy.Core.Dedup.Supersede.replace_same_type engraphy.Core.Dedup.Supersede.replace
    engraphy.Core.Dedup.Supersede.supersede engraphy.Tests.Samples.codes engraphy.Tests.Samples.gap
    engraphy.Base.string_eq engraphy.Base.nat_eq
every_outcome = (refl, refl, refl, refl, refl, refl, refl)

write-Accounted_example :
    Returns
      (λ reply after.
        Accounted env alice
          (cleaned env alice db novel)
          db
          reply.envelope
          after.nodes
          after.pending)
      (write env alice "fp32" (some bands) (some (pos 750000)) false "write" novel db)
write-Accounted_example =
    write-Accounted env alice "fp32" (some bands) (some (pos 750000)) false "write" novel db

write-Grown_example :
    Ends
      (Grown Kept db)
      (write env alice "fp32" (some bands) (some (pos 750000)) false "write" restated db)
write-Grown_example =
    write-Grown env alice "fp32" (some bands) (some (pos 750000)) false "write" restated db

resolve_duplicate-Grown_example :
    Ends
      (Grown Kept db)
      (resolve_duplicate env alice "fp32" (some bands) (some (pos 750000)) 7 "distinct" none db)
resolve_duplicate-Grown_example =
    resolve_duplicate-Grown env alice "fp32" (some bands) (some (pos 750000)) 7 "distinct" none db

supersede-Grown_example :
    Ends
      (Grown (KeptBut 1) db)
      (supersede env alice "fp32" (some bands) (some (pos 750000)) 1 novel db)
supersede-Grown_example =
    supersede-Grown env alice "fp32" (some bands) (some (pos 750000)) 1 novel db

write-Logged_example :
    Returns
      (λ reply after. Logged alice between "write" db after)
      (write env alice "fp32" (some bands) (some (pos 750000)) false "write" between db)
write-Logged_example =
    write-Logged env alice "fp32" (some bands) (some (pos 750000)) false "write" between db

resolve_duplicate-Resolved_example :
    Returns
      (λ reply after. Resolved alice 7 db after)
      (resolve_duplicate env alice "fp32" (some bands) (some (pos 750000)) 7 "merge" (some 1) db)
resolve_duplicate-Resolved_example =
    resolve_duplicate-Resolved env alice "fp32" (some bands) (some (pos 750000)) 7 "merge" (some 1)
      db

write-Inserts_example :
    (after : Db) × (write env alice "fp32" (some bands) (some (pos 750000)) false "write" far db
      ≡ ok (
        plain_reply
            (inserted (view_of (new_node env alice (cleaned env alice db far) db)))
            (sanitized env.dates (spec_for alice "note" db) end).1,
        after,
      ))
    × Extended (new_node env alice (cleaned env alice db far) db) db after
unfolding engraphy.Core.Tx.◌>>=◌ engraphy.Core.Json.get engraphy.Core.Json.put
    engraphy.Core.Json.keys engraphy.Core.Json.without engraphy.Core.Json.has
    engraphy.Core.Json.sorted engraphy.Core.Json.items_append engraphy.Core.AttrSpec.find_rule
    engraphy.Core.AttrSpec.rule_of engraphy.Core.AttrSpec.date_re engraphy.Core.AttrSpec.check_value
    engraphy.Core.AttrSpec.value_error engraphy.Core.AttrSpec.bucket
    engraphy.Core.AttrSpec.presence_errors engraphy.Core.AttrSpec.condition_errors
    engraphy.Core.AttrSpec.unknown_errors engraphy.Core.AttrSpec.value_errors
    engraphy.Core.AttrSpec.validate_attrs engraphy.Core.AttrSpec.droppable
    engraphy.Core.AttrSpec.droppable_errors engraphy.Core.AttrSpec.entry
    engraphy.Core.AttrSpec.sanitize_attrs engraphy.Core.AttrSpec.searchable_keys
    engraphy.Core.Store.status_eq engraphy.Core.Store.readable_scopes
    engraphy.Core.Store.writable_scopes engraphy.Core.Store.ambient_scope_set
    engraphy.Core.Store.visible engraphy.Core.Store.select_node engraphy.Core.Store.has_rule
    engraphy.Core.Store.append_node engraphy.Core.Store.insert_node engraphy.Core.Store.has_edge
    engraphy.Core.Store.add_edge engraphy.Core.Store.insert_edge engraphy.Core.Store.insert_new_edge
    engraphy.Core.Store.log_dedup engraphy.Core.Store.log_audit engraphy.Core.Store.update_at
    engraphy.Core.Store.update_node engraphy.Core.Jaccard.token_eq engraphy.Core.Jaccard.distinct
    engraphy.Core.Jaccard.tokenize engraphy.Core.Jaccard.common engraphy.Core.Jaccard.union
    engraphy.Core.Jaccard.novel_tokens engraphy.Core.Jaccard.is_novel
    engraphy.Core.Dedup.Bands.for_profile engraphy.Core.Dedup.Bands.resonance_floor_default
    engraphy.Core.Dedup.Bands.select_band engraphy.Core.Dedup.Bands.config_float
    engraphy.Core.Dedup.Bands.resolve_bands engraphy.Core.Dedup.Bands.resolve_floor
    engraphy.Core.Dedup.Bands.resolve_config engraphy.Core.Dedup.Links.validate_links_shape
    engraphy.Core.Dedup.Links.attach_link engraphy.Core.Dedup.Links.tally
    engraphy.Core.Dedup.Links.attach_links engraphy.Core.Dedup.Candidates.is_candidate
    engraphy.Core.Dedup.Candidates.candidate_query engraphy.Core.Dedup.Candidates.nearer
    engraphy.Core.Dedup.Candidates.nearest engraphy.Core.Dedup.Candidates.best_of
    engraphy.Core.Dedup.Candidates.candidate_rows engraphy.Core.Dedup.Candidates.next_canonical
    engraphy.Core.Dedup.Candidates.chase engraphy.Core.Dedup.Candidates.resolve_canonical
    engraphy.Core.Dedup.Candidates.same_topic_peer_bodies engraphy.Core.Dedup.Candidates.addenda_of
    engraphy.Core.Dedup.Candidates.addenda_bodies engraphy.Core.Dedup.Candidates.join
    engraphy.Core.Dedup.Candidates.corpus_of engraphy.Core.Dedup.Branches.view_of
    engraphy.Core.Dedup.Branches.new_node engraphy.Core.Dedup.Branches.do_insert
    engraphy.Core.Dedup.Branches.first_row engraphy.Core.Dedup.Branches.do_review_queue
    engraphy.Core.Dedup.Branches.payload_of engraphy.Core.Dedup.Branches.park
    engraphy.Core.Dedup.Branches.do_pending engraphy.Core.Dedup.Branches.link_if_ruled
    engraphy.Core.Dedup.Branches.do_merge_link engraphy.Core.Dedup.Branches.is_reoccurrence
    engraphy.Core.Dedup.Branches.add_addendum engraphy.Core.Dedup.Branches.append_reoccurrence
    engraphy.Core.Dedup.Branches.note_reoccurrence engraphy.Core.Dedup.Branches.do_absorb
    engraphy.Core.Dedup.Branches.logged_as engraphy.Core.Dedup.Branches.merge_branch
    engraphy.Core.Dedup.Write.validate_no_reserved_attrs
    engraphy.Core.Dedup.Write.validate_not_reserved_type engraphy.Core.Dedup.Write.spec_for
    engraphy.Core.Dedup.Write.sanitized engraphy.Core.Dedup.Write.sanitize_attrs_for_write
    engraphy.Core.Dedup.Write.stripped engraphy.Core.Dedup.Write.insert_branch
    engraphy.Core.Dedup.Write.pending_branch engraphy.Core.Dedup.Write.for_log
    engraphy.Core.Dedup.Write.merge_band_branch engraphy.Core.Dedup.Write.run_band
    engraphy.Core.Dedup.Write.max_similarity engraphy.Core.Dedup.Write.write_logs
    engraphy.Core.Dedup.Write.locked_core engraphy.Core.Dedup.Write.require_writable
    engraphy.Core.Dedup.Write.write engraphy.Core.Dedup.Resolve.select_pending
    engraphy.Core.Dedup.Resolve.incoming_of engraphy.Core.Dedup.Resolve.is_active
    engraphy.Core.Dedup.Resolve.attach_relates_to_nearest_active engraphy.Core.Dedup.Resolve.relate
    engraphy.Core.Dedup.Resolve.resolve_distinct engraphy.Core.Dedup.Resolve.still_open
    engraphy.Core.Dedup.Resolve.log_merge engraphy.Core.Dedup.Resolve.resolve_merge
    engraphy.Core.Dedup.Resolve.run_resolution engraphy.Core.Dedup.Resolve.delete_pending
    engraphy.Core.Dedup.Resolve.resolve_duplicate engraphy.Core.Dedup.Supersede.replacement_of
    engraphy.Core.Dedup.Supersede.relate_old engraphy.Core.Dedup.Supersede.downgrade_type
    engraphy.Core.Dedup.Supersede.flip engraphy.Core.Dedup.Supersede.retire
    engraphy.Core.Dedup.Supersede.replace_same_type engraphy.Core.Dedup.Supersede.replace
    engraphy.Core.Dedup.Supersede.supersede engraphy.Tests.Samples.codes engraphy.Tests.Samples.gap
    engraphy.Base.string_eq engraphy.Base.nat_eq engraphy.Core.Store.node_error
write-Inserts_example =
    write-Inserts env alice "fp32" bands (pos 750000) false "write" far db (refl, refl, refl, refl)
      refl (refl, tt) refl

abbrev parked_text : Payload
parked_text = parked.payload
