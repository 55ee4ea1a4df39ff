-- ===== src/Core/Dedup/Envelope.antt =====
-- engraphy/core/dedup.py: what a write is given, and the envelopes it answers with.
use engraphy.Base.{ℕ, String, Bool, Option, List, ℤ}
use engraphy.Core.Json.{Fields}
use engraphy.Core.AttrSpec.{Dates, DroppedAttr}
use engraphy.Core.Jaccard.{Unicode}
use engraphy.Core.Store.{Vector, Status, Candidate, Link}

-- What the code takes from elsewhere: `<=>` of pgvector in millionths, `round(x, 2)` on such a
-- number, `datetime.isoformat` on a time in microseconds, and embedding.MODEL_STAMP.
pub record Env : Type 0 where
  pub distance : Vector → Vector → ℕ
  pub round2 : ℤ → ℤ
  pub isoformat : ℕ → String
  pub model_stamp : String
  pub unicode : Unicode
  pub dates : Dates

-- The arguments that `write` hands down to its branches.
pub record Incoming : Type 0 where
  pub node_type : String
  pub scope : String
  pub title : String
  pub body : String
  pub attrs : Fields
  pub embedding : Vector
  pub source_client : String
  pub source_session : Option String
  pub links : List Link
  pub extra_search : String

-- A node as an envelope shows it.
pub record NodeView : Type 0 where
  pub id : ℕ
  pub node_type : String
  pub scope : String
  pub title : String
  pub body : String
  pub attrs : Fields
  pub status : Status
  pub author : String
  pub created_at : ℕ

-- `merged_silently` and `merged_linked_silently` are the two that import mode strips.
pub data Envelope : Type 0 where
  inserted : NodeView → Envelope
  merged : NodeView → ℤ → Bool → ℕ × ℕ → Envelope
  merged_linked : NodeView → ℕ → ℤ → Bool → Envelope
  needs_confirmation : ℕ → ℕ → List Candidate → Envelope
  review_queued : String → String → Candidate → Envelope
  merged_silently : Bool → Envelope
  merged_linked_silently : Envelope

-- `supersede_downgraded`: the old node, and whether a `relates_to` edge was added.
pub record Downgrade : Type 0 where
  pub old_id : ℕ
  pub related_edge_added : Bool

pub record Reply : Type 0 where
  pub envelope : Envelope
  pub dropped_attrs : List DroppedAttr
  pub relates_edge_added : Option Bool
  pub superseded : Option ℕ
  pub downgraded : Option Downgrade
