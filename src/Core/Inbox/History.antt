-- ===== src/Core/Inbox/History.antt =====
-- engraphy/core/inbox.py: any run of operations on the inbox.
use engraphy.Base.{ℕ, String, Bool, Option, List, [], ◌∷◌, ℤ, string_eq, nat_eq}
use engraphy.Core.Json.{Json}
use engraphy.Core.Tx.{Result, ok, err}
use engraphy.Core.Store.{Db, Session, promoted, inbox_status_eq}
use engraphy.Core.Dedup.Bands.{BandThresholds}
use engraphy.Core.Dedup.Envelope.{Env, Incoming}
use engraphy.Core.Dedup.Counted.{write_counted}
use engraphy.Core.Inbox.{capture, promote, discard, set_status}

-- What may happen to the tables, by any session.
pub data Event : Type 0 where
  captures : Session → Option String → Json → Option String → Event
  -- A promotion with nothing in between, and its last transaction alone, `UPDATE inbox SET status`,
  -- which comes at any time after its `write`.
  settles : Session → ℕ → Event
  promotes : Env → Session → String → Option BandThresholds → Option ℤ → ℕ → Incoming → Event
  discards : Session → ℕ → Event
  writes :
      Env → Session → String → Option BandThresholds → Option ℤ → Bool → String → Incoming → Event

-- The tables after a transaction from `db`: one that raises is rolled back.
commit : {A : Type 0} → Result (A × Db) → Db → Db
commit (ok (a, after)) db = after
commit (err e) db = db

-- One of them, in its transactions.
unfoldable pub happen : Event → Db → Db
unfolding commit
happen (captures s kind payload scope) db = commit (capture s kind payload scope db) db
happen (promotes env s profile t floor id inc) db =
    commit (promote env s profile t floor id inc db) db
happen (settles s id) db = set_status s id promoted db
happen (discards s id) db = commit (discard s id db) db
happen (writes env s profile t floor import_mode action inc) db =
    commit (write_counted env s profile t floor import_mode action inc db) db

unfoldable pub history : List Event → Db → Db
history [] db = db
history (e ∷ events) db = history events (happen e db)
