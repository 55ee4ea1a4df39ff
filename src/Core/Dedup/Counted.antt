-- ===== src/Core/Dedup/Counted.antt =====
-- engraphy/core/dedup.py: the usage counters that follow a write or a resolution.
use engraphy.Base.{ℕ, String, Bool, true, false, Option, none, some, List, [], ◌∷◌, ℤ}
use engraphy.Core.Tx.{Tx}
use engraphy.Core.Store.{Db, Session}
use engraphy.Core.Metrics.{counted, write_outcome_metric}
use engraphy.Core.Dedup.Bands.{BandThresholds}
use engraphy.Core.Dedup.Envelope.{
  Env, Incoming, Envelope, inserted, merged, merged_linked, needs_confirmation, review_queued,
  merged_silently, merged_linked_silently, Reply,
}
use engraphy.Core.Dedup.Write.{write}
use engraphy.Core.Dedup.Resolve.{resolve_duplicate}

-- `envelope["outcome"]`
unfoldable pub outcome_of : Envelope → String
outcome_of (inserted v) = "inserted"
outcome_of (merged v sim added counts) = "merged"
outcome_of (merged_linked v id sim added) = "merged_linked"
outcome_of (needs_confirmation id expires rows) = "needs_confirmation"
outcome_of (review_queued title body row) = "review_queued"
outcome_of (merged_silently added) = "merged"
outcome_of merged_linked_silently = "merged_linked"

unfoldable pub metric_count : Option String → List (String × ℕ)
metric_count none = []
metric_count (some metric) = (metric, 1) ∷ []

-- Import mode counts nothing.
unfoldable pub write_counts : Bool → Envelope → List (String × ℕ)
unfolding outcome_of metric_count
write_counts true e = []
write_counts false e = metric_count (write_outcome_metric (outcome_of e))

-- `write`, up to the resonance report
unfoldable pub write_counted :
    Env
    → Session
    → String
    → Option BandThresholds
    → Option ℤ
    → Bool
    → String
    → Incoming
    → Tx Db Reply
write_counted env s profile thresholds floor import_mode action inc =
    counted s (λ r. write_counts import_mode r.envelope)
      (write env s profile thresholds floor import_mode action inc)

-- Only a resolution that inserted counts.
unfoldable pub resolve_counts : Envelope → List (String × ℕ)
resolve_counts (inserted v) = ("facts_stored", 1) ∷ []
resolve_counts _ = []

-- `resolve_duplicate`, up to the resonance report
unfoldable pub resolve_counted :
    Env → Session → String → Option BandThresholds → Option ℤ → ℕ → String → Option ℕ → Tx Db Reply
resolve_counted env s profile thresholds floor pending_id resolution merge_into =
    counted s (λ r. resolve_counts r.envelope)
      (resolve_duplicate env s profile thresholds floor pending_id resolution merge_into)
