-- ===== src/Server/Http/Captures.antt =====
-- engraphy/server/app.py: what a capture over POST /inbox has passed.
use mathlib.Core.Path.{subst}
use engraphy.Base.{
  ℕ, String, ◌≡◌, refl, sym, ap, ◌∙◌, ◌⊎◌, inl, inr, true, Option, none, some, List, string_eq,
  arith, Bool-cases, Option-cases, ==-ne,
}
use engraphy.Core.Json.{Json}
use engraphy.Core.Tx.Runs.{transaction-ok}
use engraphy.Core.Tx.{Error, Result, ok, err, transaction, Tx}
use engraphy.Core.Store.{Db, Session, InboxRow}
use engraphy.Core.Inbox.{capture}
use engraphy.Server.Auth.{AuthContext, classify_kind, require_write}
use engraphy.Server.Auth.Gates.{IsReadCall, require_write-IsReadCall}
use engraphy.Server.RateLimit.{
  RateLimiter, writes, Verdict, accepted, rate_limited, index_error, check,
}
use engraphy.Server.Limits.{read_rate_limits}
use engraphy.Server.Http.{
  Receipt, column_text, InboxResponse, captured_200, malformed_400, refused_400, role_403,
  inbox_max_body_bytes, read_capped_body, capture_fields, scope_of, captured, capture_call,
  capture_body, capture_checked, inbox_capture,
}

-- The answer to a capture that made a row.
abbrev pub receipt : InboxRow → Json → Json → Option Json → Receipt
receipt row kind payload scope = record {
  id = row.id;
  kind = kind;
  payload = payload;
  scope = scope;
  created_at = row.created_at;
}

-- The body asked for a capture that the tables took.
pub record Stored (others : Json → Option String) (loads : List ℕ → Option Json) (s : Session)
    (body : Option (List ℕ)) (db : Db) (o : InboxResponse) (after : Db) : Type 0 where
  pub raw : List ℕ
  pub read : body ≡ some raw
  pub kind : Json
  pub payload : Json
  pub scope_field : Option Json
  pub fields : capture_fields (loads raw) ≡ some (kind, payload, scope_field)
  pub kind_text : Option String
  pub typed : column_text others kind ≡ some kind_text
  pub scope : Option String
  pub named : scope_of others scope_field ≡ some scope
  pub row : InboxRow
  pub kept : capture s kind_text payload scope db ≡ ok (row, after)
  pub answered : o ≡ captured_200 (receipt row kind payload scope_field)

-- Nothing was captured.
pub record Nothing (db : Db) (o : InboxResponse) (after : Db) : Type 0 where
  pub unanswered : (r : Receipt) → ¬ (o ≡ captured_200 r)
  pub unchanged : db ≡ after

Result-cases :
    (r : Result (InboxRow × Db))
    → ((row : InboxRow) × (db : Db) × (r ≡ ok (row, db))) ⊎ ((e : Error) × (r ≡ err e))
Result-cases (ok (row, db)) = inl (row, db, refl)
Result-cases (err e) = inr (e, refl)

transaction-err :
    (m : Tx Db InboxRow) (db : Db) {e : Error} → m db ≡ err e → transaction m db ≡ (err e, db)
unfolding transaction
transaction-err m db h = rw (h, transaction) refl

module _ (others : Json → Option String) (loads : List ℕ → Option Json) (s : Session) where
  call-cases :
      (k sc : Option (Option String)) (kind payload : Json) (scope : Option Json) (db : Db)
      (o : InboxResponse) (after : Db)
      → capture_call s k sc kind payload scope db ≡ (o, after)
      → ((kt : Option String) × (st : Option String) × (row : InboxRow) × (k ≡ some kt)
          × (sc ≡ some st)
          × (capture s kt payload st db ≡ ok (row, after))
          × (o ≡ captured_200 (receipt row kind payload scope)))
        ⊎ Nothing db o after
  unfolding capture_call captured
  call-cases (some kt) (some st) kind payload scope db o after h =
      elim (Result-cases (capture s kt payload st db)) [
        | inl (row, left, done) ↦
            let e : ◌≡◌ {A = InboxResponse × Db}
                (captured_200 (receipt row kind payload scope), left) (o, after) =
              sym (
                ap (captured kind payload scope) (transaction-ok (capture s kt payload st) db done))
              ∙ h in
            let same : left ≡ after = cc in
            inl (kt, st, row, refl, refl, done ∙ ap (λ d. ok (row, d)) same, cc)
        | inr (x, failed) ↦
            let e : ◌≡◌ {A = InboxResponse × Db} (refused_400, db) (o, after) =
              sym (
                ap (captured kind payload scope)
                  (transaction-err (capture s kt payload st) db failed))
              ∙ h in
            inr (record { unanswered = λ row a. cc; unchanged = cc })
      ]
  call-cases none sc kind payload scope db o after h =
      inr (record { unanswered = λ row a. cc; unchanged = cc })
  call-cases (some kt) none kind payload scope db o after h =
      inr (record { unanswered = λ row a. cc; unchanged = cc })

  body-cases :
      (body : Option (List ℕ)) (db : Db) (o : InboxResponse) (after : Db)
      → capture_body others loads s body db ≡ (o, after)
      → Stored others loads s body db o after ⊎ Nothing db o after
  unfolding capture_body
  body-cases none db o after h = inr (record { unanswered = λ row a. cc; unchanged = cc })
  body-cases (some raw) db o after h = elim (Option-cases (capture_fields (loads raw))) [
    | inl bad ↦
        let e : ◌≡◌ {A = InboxResponse × Db} (malformed_400, db) (o, after) =
          ground (arith, bad, h) in
        inr (record { unanswered = λ row a. cc; unchanged = cc })
    | inr ((k, payload, field), good) ↦
        let e : capture_call s (column_text others k) (scope_of others field) k payload field db
            ≡ (o, after) =
          ground (arith, good, h) in
        elim (call-cases (column_text others k) (scope_of others field) k payload field db o after
          e) [
            | inl (kt, st, row, typed, named, done, answered) ↦ inl (record {
              raw = raw;
              read = refl;
              kind = k;
              payload = payload;
              scope_field = field;
              fields = good;
              kind_text = kt;
              typed = typed;
              scope = st;
              named = named;
              row = row;
              kept = done;
              answered = answered;
            })
            | inr nothing ↦ inr nothing
          ]
  ]

  checked-cases :
      (body : Option (List ℕ)) (v : Verdict) (db : Db) (o : InboxResponse) (after : Db)
      → capture_checked others loads s body v db ≡ (o, after)
      → ((v ≡ accepted) × Stored others loads s body db o after) ⊎ Nothing db o after
  unfolding capture_checked
  checked-cases body accepted db o after h = elim (body-cases body db o after h) [
    | inl stored ↦ inl (refl, stored)
    | inr nothing ↦ inr nothing
  ]
  checked-cases body (rate_limited ms) db o after h =
      inr (record { unanswered = λ row a. cc; unchanged = cc })
  checked-cases body index_error db o after h =
      inr (record { unanswered = λ row a. cc; unchanged = cc })

-- The identity with which a capture reaches the tables.
abbrev pub session_of : AuthContext → Session
session_of ctx = record { space = ctx.space_id; principal = ctx.principal }

-- The call of the limiter for a capture, as for a tool that writes.
abbrev pub capture_check : (ℕ → String) → AuthContext → ℕ → RateLimiter → Db → Verdict × RateLimiter
capture_check id_text ctx mono r db =
    check r mono (id_text ctx.token_id) writes (read_rate_limits ctx.space_id db).0
      (read_rate_limits ctx.space_id db).1

capture-writes : classify_kind "POST /inbox" none ≡ writes
unfolding classify_kind string_eq
capture-writes = refl

capture_acts : ¬ (IsReadCall "POST /inbox" none)
unfolding string_eq
capture_acts (inl (same, acts)) = absurd (==-ne "POST /inbox" "inbox_review" refl same)
capture_acts (inr (other, free)) = cc

capture-readwrite :
    (ctx : AuthContext) → require_write ctx "POST /inbox" none ≡ true → ctx.role ≡ "readwrite"
capture-readwrite ctx passed = elim (string_eq.dec ctx.role "readwrite") [
  | yes full ↦ full
  | no weak ↦ absurd (capture_acts (require_write-IsReadCall ctx "POST /inbox" none weak passed))
]

-- A request to POST /inbox leaves the tables as they were and is not answered with a row, or else the
-- token's role is `readwrite`, the limiter of the token's writes accepted the call, and the tables are
-- those after a capture of the payload that the body, within its cap, names, and of what the columns
-- take of the body's kind and scope: NULL for a null or a scope that is not there, and a text as it is.
-- The answer has the id and the time of the new row.
pub inbox_capture-Stored :
    (others : Json → Option String) (loads : List ℕ → Option Json) (id_text : ℕ → String)
    (ctx : AuthContext) (mono : ℕ) (declared : Option ℕ) (chunks : List (List ℕ)) (r : RateLimiter)
    (db : Db) (o : InboxResponse) (left : RateLimiter) (after : Db)
    → inbox_capture others loads id_text ctx mono declared chunks r db ≡ (o, left, after)
    → ((ctx.role ≡ "readwrite")
        × (capture_check id_text ctx mono r db ≡ (accepted, left))
        × Stored others loads
            (session_of ctx)
            (read_capped_body inbox_max_body_bytes declared chunks)
            db
            o
            after)
      ⊎ Nothing db o after
unfolding inbox_capture
inbox_capture-Stored others loads id_text ctx mono declared chunks r db o left after h =
    let body = read_capped_body inbox_max_body_bytes declared chunks in
    let c =
      check r mono (id_text ctx.token_id) (classify_kind "POST /inbox" none)
        (read_rate_limits ctx.space_id db).0 (read_rate_limits ctx.space_id db).1 in
    let x = capture_checked others loads (session_of ctx) body c.0 db in
    elim (Bool-cases (require_write ctx "POST /inbox" none)) [
      | inl passed ↦
          let e : ◌≡◌ {A = InboxResponse × RateLimiter × Db} (x.0, c.1, x.1) (o, left, after) =
            ground (arith, passed, h) in
          let asked : x.0 ≡ o = cc in
          let budget : c.1 ≡ left = cc in
          let done : x.1 ≡ after = cc in
          elim (checked-cases others loads (session_of ctx) body c.0 db x.0 x.1 refl) [
            | inl (fine, stored) ↦
                let pair : c ≡ (accepted, left) =
                  ap (λ v. (v, c.1)) fine ∙ ap (λ l. (accepted, l)) budget in
                let first =
                  subst (λ y. Stored others loads (session_of ctx) body db y x.1) asked stored in
                inl (
                  capture-readwrite ctx passed,
                  subst
                      (λ k.
                        check r mono (id_text ctx.token_id) k (read_rate_limits ctx.space_id db).0
                          (read_rate_limits ctx.space_id db).1
                        ≡ (accepted, left))
                      capture-writes pair,
                  subst (λ y. Stored others loads (session_of ctx) body db o y) done first,
                )
            | inr nothing ↦ inr (record {
              unanswered = λ row a. nothing.unanswered row (asked ∙ a);
              unchanged = nothing.unchanged ∙ done;
            })
          ]
      | inr refused ↦
          let e : ◌≡◌ {A = InboxResponse × RateLimiter × Db} (role_403, r, db) (o, left, after) =
            ground (arith, refused, h) in
          inr (record { unanswered = λ row a. cc; unchanged = cc })
    ]
