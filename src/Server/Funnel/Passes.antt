-- ===== src/Server/Funnel/Passes.antt =====
-- engraphy/server/app.py: what a call has passed when it reaches a dispatcher, and what is left of one
-- that does not.
use mathlib.Core.Path.{subst}
use engraphy.Base.{
  ℕ, String, ◌≡◌, refl, ◌⊎◌, inl, inr, true, Option, none, some, string_eq, arith, Bool-cases,
  Option-cases,
}
use engraphy.Core.Json.{Json, Fields}
use engraphy.Core.Store.{Db}
use engraphy.Server.Auth.{AuthContext, classify_kind, require_write}
use engraphy.Server.RateLimit.{RateLimiter, Verdict, accepted, rate_limited, index_error, check}
use engraphy.Server.Limits.{read_rate_limits}
use engraphy.Server.Auth.Gates.{IsReadCall, require_write-IsReadCall}
use engraphy.Server.Wire.{Surface, spec_of}
use engraphy.Server.Wire.Validate.Accepts.{IsWellFormed, validate-IsWellFormed}
use engraphy.Server.Registry.Resolves.{
  IsOwn, IsAliased, resolve_dispatch-IsTool, resolve_dispatch-HasSurface,
}
use engraphy.Server.Wire.Validate.{validate}
use engraphy.Server.Errors.{code_validation, code_role}
use engraphy.Server.Registry.{Target, unknown, tool, raised, resolve_dispatch}
use engraphy.Server.Funnel.{
  Tools, Outcome, answer, refusal, gate_action, dispatched, validated, limited, gated,
  handle_target, handle_call_tool,
}

-- The call of a limiter that `gated` makes.
abbrev pub checked :
    Tools → AuthContext → ℕ → String → Option String → RateLimiter → Db → Verdict × RateLimiter
checked tools ctx now core action r db =
    check r now (tools.id_text ctx.token_id) (classify_kind core action)
      (read_rate_limits ctx.space_id db).0 (read_rate_limits ctx.space_id db).1

-- A call that reached the dispatcher of `core` with the arguments `merged`.
pub record Passed (tools : Tools) (ctx : AuthContext) (now : ℕ) (target : Target) (r : RateLimiter)
    (db : Db) (o : Outcome) (r1 : RateLimiter) (left : Db) : Type 0 where
  pub core : String
  pub merged : Fields
  pub audited : Option String
  pub action : Option String
  pub found : target ≡ tool core merged audited
  pub gate : gate_action core merged ≡ some action
  pub permitted : require_write ctx core action ≡ true
  pub in_budget : checked tools ctx now core action r db ≡ (accepted, r1)
  pub valid : validate core merged ≡ none
  pub ran : dispatched tools ctx core merged audited db ≡ (o, left)

-- A call that was not answered and left the tables as they were.
pub record Turned (db : Db) (o : Outcome) (left : Db) : Type 0 where
  pub unanswered : (v : Json) → ¬ (o ≡ answer v)
  pub unchanged : db ≡ left

module _ (tools : Tools) (ctx : AuthContext) (now : ℕ) (r : RateLimiter) (db : Db) where
  validated-cases :
      (core : String) (merged : Fields) (audited : Option String) (o : Outcome) (left : Db)
      → validated tools ctx core merged audited db ≡ (o, left)
      → ((validate core merged ≡ none) × (dispatched tools ctx core merged audited db ≡ (o, left)))
        ⊎ Turned db o left
  unfolding validated
  validated-cases core merged audited o left h = elim (Option-cases (validate core merged)) [
    | inl valid ↦ inl (valid, ground (arith, valid, h))
    | inr (bad, invalid) ↦
        let e : ◌≡◌ {A = Outcome × Db} (refusal code_validation, db) (o, left) =
          ground (arith, invalid, h) in
        inr (record { unanswered = λ v a. cc; unchanged = cc })
  ]

  limited-cases :
      (core : String) (merged : Fields) (audited a : Option String) (o : Outcome)
      (r1 r2 : RateLimiter) (left : Db) (v : Verdict)
      → gate_action core merged ≡ some a
      → require_write ctx core a ≡ true
      → checked tools ctx now core a r db ≡ (v, r2)
      → limited tools ctx core merged audited r2 db v ≡ (o, r1, left)
      → Passed tools ctx now (tool core merged audited) r db o r1 left ⊎ Turned db o left
  unfolding limited
  limited-cases core merged audited a o r1 r2 left accepted gate permitted c h =
      let same : r2 ≡ r1 = cc in
      elim (validated-cases core merged audited o left cc) [
        | inl (valid, ran) ↦ inl (record {
          core = core;
          merged = merged;
          audited = audited;
          action = a;
          found = refl;
          gate = gate;
          permitted = permitted;
          in_budget = subst (λ x. checked tools ctx now core a r db ≡ (accepted, x)) same c;
          valid = valid;
          ran = ran;
        })
        | inr turned ↦ inr turned
      ]
  limited-cases core merged audited a o r1 r2 left (rate_limited ms) gate permitted c h =
      inr (record { unanswered = λ v e. cc; unchanged = cc })
  limited-cases core merged audited a o r1 r2 left index_error gate permitted c h =
      inr (record { unanswered = λ v e. cc; unchanged = cc })

  gated-cases :
      (core : String) (merged : Fields) (audited : Option String) (act : Option (Option String))
      (o : Outcome) (r1 : RateLimiter) (left : Db)
      → gate_action core merged ≡ act
      → gated tools ctx now core merged audited act r db ≡ (o, r1, left)
      → Passed tools ctx now (tool core merged audited) r db o r1 left ⊎ Turned db o left
  unfolding gated
  gated-cases core merged audited none o r1 left gate h =
      inr (record { unanswered = λ v e. cc; unchanged = cc })
  gated-cases core merged audited (some a) o r1 left gate h =
      elim (Bool-cases (require_write ctx core a)) [
        | inl permitted ↦
            let c = checked tools ctx now core a r db in
            let e : limited tools ctx core merged audited c.1 db c.0 ≡ (o, r1, left) =
              ground (arith, permitted, h) in
            limited-cases core merged audited a o r1 c.1 left c.0 gate permitted refl e
        | inr refused ↦
            let e : ◌≡◌ {A = Outcome × RateLimiter × Db} (refusal code_role, r, db) (o, r1, left) =
              ground (arith, refused, h) in
            inr (record { unanswered = λ v a. cc; unchanged = cc })
      ]

-- What a call that reached the dispatcher has passed: `tool`, the name's meaning; the role gate and the
-- limiter, asked of the tool and not of the name; and the surface of the tool.
pub record Handled (tools : Tools) (ctx : AuthContext) (now : ℕ) (name : String)
    (arguments : Fields) (r : RateLimiter) (db : Db) (o : Outcome) (r1 : RateLimiter) (left : Db)
    : Type 0 where
  pub passed : Passed tools ctx now (resolve_dispatch ctx.space_id db name arguments) r db o r1 left
  pub named :
      IsOwn ctx.space_id db name arguments passed.core passed.merged passed.audited
      ⊎ IsAliased ctx.space_id db name arguments passed.core passed.merged passed.audited
  pub by_role : (ctx.role ≡ "readwrite") ⊎ IsReadCall passed.core passed.action
  pub well_formed :
      (spec : Surface) × (spec_of passed.core ≡ some spec) × IsWellFormed spec passed.merged

module _ (tools : Tools) (ctx : AuthContext) (now : ℕ) (name : String) (arguments : Fields)
    (r : RateLimiter) (db : Db) where
  role_of :
      (core : String) (action : Option String)
      → require_write ctx core action ≡ true
      → (ctx.role ≡ "readwrite") ⊎ IsReadCall core action
  role_of core action permitted = elim (string_eq.dec ctx.role "readwrite") [
    | yes full ↦ inl full
    | no weak ↦ inr (require_write-IsReadCall ctx core action weak permitted)
  ]

  target-cases :
      (t : Target) (o : Outcome) (r1 : RateLimiter) (left : Db)
      → handle_target tools ctx now t r db ≡ (o, r1, left)
      → Passed tools ctx now t r db o r1 left ⊎ Turned db o left
  unfolding handle_target
  target-cases unknown o r1 left h = inr (record { unanswered = λ v e. cc; unchanged = cc })
  target-cases raised o r1 left h = inr (record { unanswered = λ v e. cc; unchanged = cc })
  target-cases (tool core merged audited) o r1 left h =
      gated-cases tools ctx now r db core merged audited _ o r1 left refl h

  -- A call that reaches the tables does so through the dispatcher of the tool that its name stands for,
  -- with the arguments of that tool, after its gates: the token's role is `readwrite` or the call is a
  -- read; the limiter of the token accepted a call of its kind; and the arguments are well formed for
  -- the tool. Its outcome and the tables are then the dispatcher's. Every other call is not answered and
  -- leaves the tables as they were.
  pub handle_call_tool-Handled :
      (o : Outcome) (r1 : RateLimiter) (left : Db)
      → handle_call_tool tools ctx now name arguments r db ≡ (o, r1, left)
      → Handled tools ctx now name arguments r db o r1 left ⊎ Turned db o left
  unfolding handle_call_tool
  handle_call_tool-Handled o r1 left h =
      elim (target-cases (resolve_dispatch ctx.space_id db name arguments) o r1 left h) [
        | inl p ↦
            let (spec, known) =
              resolve_dispatch-HasSurface _ db name arguments p.core _ _ p.found in
            inl (record {
              passed = p;
              named = resolve_dispatch-IsTool _ db name arguments p.core _ _ p.found;
              by_role = role_of p.core p.action p.permitted;
              well_formed = (spec, known, validate-IsWellFormed p.core spec p.merged known p.valid);
            })
        | inr turned ↦ inr turned
      ]
