-- ===== src/Tests/Walks.antt =====
-- Walks on a small graph and requests at the door, and the theorems on them at concrete inputs.
use engraphy.Base.{
  ℕ, suc, ◌≤◌, String, ◌≡◌, refl, ◌⊎◌, inl, inr, Bool, true, false, Option, none, some, List, [],
  ◌∷◌, ◌++◌, ℤ, pos, arith, In, ltb, length, ◌||◌, if◌then◌else◌,
}
use engraphy.Core.Json.{Json, end, field, str, obj}
use engraphy.Core.Tx.{Result, ok, err}
use engraphy.Core.Tx.Leads.{Returns}
use engraphy.Core.Store.{Db, Edge, EdgeType, Node, Session, InboxRow}
use engraphy.Core.Traverse.{Steps, Walked, crosses, other_end, first_rows, rounds, walk}
use engraphy.Core.Traverse.Walk.{Reaches, at_start, hop}
use engraphy.Core.Traverse.Reaches.{Reaches-walk}
use engraphy.Core.Traverse.Stops.{rounds-walk}
use engraphy.Core.Traverse.Reply.{Traversal, TraverseReply, traverse}
use engraphy.Core.Traverse.Shown.{TraverseAnswer, traverse-TraverseAnswer}
use engraphy.Tests.Samples.{db, alice, dates, old_node}

-- Three nodes in a ring, of a type of edges that is walked one way.
abbrev ring : Db
ring = record db {
  nodes = old_node ∷ record old_node { id = 2 } ∷ record old_node { id = 3 } ∷ [];
  edge_types = record { space = "main"; name = "about"; bidirectional = false } ∷ [];
  edges =
      record { space = "main"; src = 1; dst = 2; edge_type = "about" }
      ∷ record { space = "main"; src = 2; dst = 3; edge_type = "about" }
      ∷ record { space = "main"; src = 3; dst = 1; edge_type = "about" }
      ∷ [];
}

abbrev outward : Traversal
outward = record {
  start_id = 1;
  direction = "out";
  edge_types = [];
  max_depth = pos 9;
  limit = pos 9;
  detail = "summary";
}

abbrev steps : Steps
steps = record { start = 1; only = none; fwd = true; rev = false; max_depth = 4 }

ring_run : length (walk alice steps ring) ≡ 2
unfolding walk engraphy.Core.Store.readable_edge engraphy.Base.string_eq engraphy.Base.nat_eq
    engraphy.Core.Store.status_eq
ring_run = refl

abbrev shown_nodes : Result (TraverseReply × Db) → Option ℕ
shown_nodes (ok (r, after)) = some (length r.nodes)
shown_nodes (err e) = none

traverse_run : shown_nodes (traverse dates alice outward ring) ≡ some 3
unfolding traverse engraphy.Core.Tx.◌>>=◌ engraphy.Base.string_eq engraphy.Core.Traverse.walk_rows
    engraphy.Core.Store.readable_edge engraphy.Base.nat_eq engraphy.Core.Store.status_eq
    engraphy.Core.Dedup.Candidates.resolve_canonical engraphy.Core.Store.select_node
    engraphy.Core.Recall.bump_recall engraphy.Core.Search.Query.node_envelope
    engraphy.Core.Store.update_error engraphy.Core.AttrSpec.validate_attrs engraphy.Core.Json.sorted
    engraphy.Core.Json.keys engraphy.Core.Store.writable_scopes
traverse_run = refl

traverse-TraverseAnswer_example :
    Returns (λ r x. TraverseAnswer alice outward ring r) (traverse dates alice outward ring)
traverse-TraverseAnswer_example = traverse-TraverseAnswer dates alice outward ring

first_hop :
    crosses alice steps ring 1 (record { space = "main"; src = 1; dst = 2; edge_type = "about" })
    ≡ true
unfolding crosses engraphy.Core.Store.readable_edge engraphy.Base.string_eq engraphy.Base.nat_eq
    engraphy.Core.Store.status_eq
first_hop = refl

second_hop :
    crosses alice steps ring 2 (record { space = "main"; src = 2; dst = 3; edge_type = "about" })
    ≡ true
unfolding crosses engraphy.Core.Store.readable_edge engraphy.Base.string_eq engraphy.Base.nat_eq
    engraphy.Core.Store.status_eq
second_hop = refl

two_hops : Reaches alice steps ring 3 2
unfolding other_end engraphy.Base.nat_eq
two_hops =
    hop
      (hop at_start (record { space = "main"; src = 1; dst = 2; edge_type = "about" }) (inl refl)
        first_hop)
      (record { space = "main"; src = 2; dst = 3; edge_type = "about" }) (inr (inl refl)) second_hop

Reaches-walk_example : (w : Walked) × In w (walk alice steps ring) × (w.node ≡ 3) × (w.depth ≤ 2)
Reaches-walk_example = Reaches-walk alice steps ring 3 2 (omega arith) (omega arith) two_hops

rounds-walk_example :
    rounds alice steps ring 7 (first_rows alice steps ring) ≡ walk alice steps ring
rounds-walk_example = rounds-walk alice steps ring 7 (omega arith)
