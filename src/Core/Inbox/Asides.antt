-- ===== src/Core/Inbox/Asides.antt =====
-- engraphy/core/inbox.py: a write leaves the inbox and the access tables alone.
use engraphy.Base.{◌≤◌, String, ◌≡◌, Bool, Option, ℤ, arith, Bool-cases, inl, inr}
use engraphy.Core.Tx.Keeps.{Keeps}
use engraphy.Core.Store.{Db, Session, Edge, add_edge, has_edge, append_node}
use engraphy.Core.Metrics.Counted.{Keeps-counted}
use engraphy.Core.Dedup.Bands.{BandThresholds}
use engraphy.Core.Dedup.Envelope.{Env, Incoming}
use engraphy.Core.Dedup.Branches.{park}
use engraphy.Core.Dedup.Steps.{Open, Keeps-write}
use engraphy.Core.Dedup.Counted.{write_counted}

-- The inbox and the access tables are those of the first state, and ids were only used up.
abbrev pub Beside : Db → Db → Type 0
Beside origin s =
    (s.inbox ≡ origin.inbox)
    × (s.scopes ≡ origin.scopes)
    × (s.grants ≡ origin.grants)
    × (origin.next_id ≤ s.next_id)

Beside-add_edge : (origin : Db) (e : Edge) (s : Db) → Beside origin s → Beside origin (add_edge e s)
unfolding add_edge
Beside-add_edge origin e s h = elim (Bool-cases (has_edge e.src e.dst e.edge_type s)) [
  | inl there ↦ rw there h
  | inr missing ↦ rw missing h
]

Beside-Open : (origin : Db) → Open (Beside origin)
unfolding append_node park
Beside-Open origin = record {
  closed = record {
    inserts = λ n s (i, c, g, le). (i, c, g, omega arith);
    relates = Beside-add_edge origin;
    parks = λ t p s (i, c, g, le). (i, c, g, omega arith);
    appends = λ id a s h. h;
  };
  logs = λ r s h. h;
  audits = λ r s h. h;
  drops = λ rows s h. h;
}

pub Keeps-write_counted :
    (origin : Db) (env : Env) (s : Session) (profile : String) (t : Option BandThresholds)
    (floor : Option ℤ) (import_mode : Bool) (action : String) (inc : Incoming)
    → Keeps (Beside origin) (write_counted env s profile t floor import_mode action inc)
unfolding write_counted
Keeps-write_counted origin env s profile t floor import_mode action inc =
    Keeps-counted s _ (λ after db h. h)
      (Keeps-write (Beside-Open origin) env s profile t floor import_mode action inc)
