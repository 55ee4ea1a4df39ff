-- ===== src/Server/Http/Doors.antt =====
-- engraphy/server/app.py: who comes past the middleware, and what a capture has passed.
use mathlib.Core.Path.{subst}
use engraphy.Base.{
  ℕ, String, ◌≡◌, ◌≢◌, refl, sym, ◌∙◌, ap, if◌then◌else◌, ◌⊎◌, inl, inr, true, false, not, ◌&&◌,
  ◌||◌, Option, none, some, find_first, ◌==◌, string_eq, nat_eq, arith, Bool-cases, Option-cases,
  In, In-find_first, ==-eq, ==-ne,
}
use engraphy.Server.Auth.{
  TokenRow, PrincipalRow, AuthContext, context_of, use_row, resolve_token, require_active_principal,
}
use engraphy.Server.RateLimit.{is_banned, record_failure}
use engraphy.Server.Http.{
  Request, Door, Response, unauthorized_401, served, raw_token, client_key, admitted, tokens_after,
  serve, call,
}

-- A bearer that the tables admit: it is the token of a row that is not revoked, whose principal has a
-- row that is not archived.
pub record Bearer (hash_token : String → String) (door : Door) (raw : String) (ctx : AuthContext)
    : Type 0 where
  pub given : raw ≢ ""
  pub row : TokenRow
  pub stored : In row door.tokens
  pub hashed : row.token_hash ≡ hash_token raw
  pub live : row.revoked ≡ false
  pub context : context_of row ≡ ctx
  pub principal : PrincipalRow
  pub listed : In principal door.principals
  pub owner : (principal.space_id ≡ ctx.space_id) × (principal.id ≡ ctx.principal)
  pub active : principal.archived ≡ false

-- The application was called, with the identity of such a bearer if the path asks for one.
pub data Admitted {S A : Type 0} (hash_token : String → String)
    (app : Option AuthContext → S → A × S) (mono : ℕ) (r : Request) (door : Door) (s : S) (a : A)
    (left : S) : Type 0 where
  exempt :
      (not r.is_http || r.path == "/healthz") ≡ true
      → app none s ≡ (a, left)
      → Admitted hash_token app mono r door s a left
  with_bearer :
      (ctx : AuthContext)
      → (is_banned door.fails mono (client_key r)).0 ≡ false
      → Bearer hash_token door (raw_token r.authorization) ctx
      → app (some ctx) s ≡ (a, left)
      → Admitted hash_token app mono r door s a left

-- What is left of a request that the middleware refuses: the application's state is as it was, and
-- the refusal of a client that was not banned is a failure more of this client.
pub record Refused {S A : Type 0} (mono : ℕ) (r : Request) (door left_door : Door) (s : S)
    (o : Response A) (left : S) : Type 0 where
  pub answered : o ≡ unauthorized_401
  pub unchanged : s ≡ left
  pub principals : left_door.principals ≡ door.principals
  pub recorded : left_door.fails ≡ (
      if (is_banned door.fails mono (client_key r)).0
      then (is_banned door.fails mono (client_key r)).1
      else record_failure (is_banned door.fails mono (client_key r)).1 mono (client_key r))

module _ (hash_token : String → String) (now : ℕ) (door : Door) (raw : String)
    (ctx : AuthContext) where
  active-Bearer :
      (row : TokenRow)
      → raw ≢ ""
      → In row door.tokens
      → row.token_hash ≡ hash_token raw
      → row.revoked ≡ false
      → context_of row ≡ ctx
      → require_active_principal door.principals ctx ≡ true
      → Bearer hash_token door raw ctx
  unfolding require_active_principal
  active-Bearer row given stored hashed live context active =
      elim (Option-cases
        (find_first (λ r. r.space_id == ctx.space_id && r.id == ctx.principal) door.principals)) [
          | inl missing ↦ absurd (ground (arith, missing, active))
          | inr (p, found) ↦
              let (here, passed) =
                In-find_first (λ r. r.space_id == ctx.space_id && r.id == ctx.principal) p
                  door.principals found in
              record {
                given = given;
                row = row;
                stored = stored;
                hashed = hashed;
                live = live;
                context = context;
                principal = p;
                listed = here;
                owner = (==-eq _ _ (ground (arith, passed)), ==-eq _ _ (ground (arith, passed)));
                active = ground (arith, found, active);
              }
        ]

  admitted-Bearer :
      admitted door.principals (resolve_token hash_token now door.tokens raw) ≡ some ctx
      → Bearer hash_token door raw ctx
  unfolding resolve_token use_row admitted
  admitted-Bearer h = elim (Bool-cases (raw == "")) [
    | inl blank ↦ absurd (ground (arith, blank, h))
    | inr given ↦
        elim (Option-cases (find_first (λ r. r.token_hash == hash_token raw) door.tokens)) [
          | inl missing ↦ absurd (ground (arith, given, missing, h))
          | inr (row, found) ↦
              let (here, same) =
                In-find_first (λ r. r.token_hash == hash_token raw) row door.tokens found in
              elim (Bool-cases row.revoked) [
                | inl dead ↦ absurd (ground (arith, given, found, dead, h))
                | inr live ↦
                    elim (Bool-cases (require_active_principal door.principals (context_of row))) [
                      | inl active ↦
                          let e : context_of row ≡ ctx =
                            ground (arith, given, found, live, active, h) in
                          active-Bearer row (==-ne raw "" given) here (==-eq _ _ same) live e (
                            subst (λ c. require_active_principal door.principals c ≡ true) e active)
                      | inr archived ↦ absurd (ground (arith, given, found, live, archived, h))
                    ]
              ]
        ]
  ]

module _ {S A : Type 0} (hash_token : String → String) (app : Option AuthContext → S → A × S)
    (mono now : ℕ) (r : Request) (door : Door) (s : S) where
  serve-cases :
      (d left_door : Door) (who : Option AuthContext) (o : Response A) (left : S)
      → (is_banned door.fails mono (client_key r)).0 ≡ false
      → d.fails ≡ (is_banned door.fails mono (client_key r)).1
      → d.principals ≡ door.principals
      → ((ctx : AuthContext)
          → who ≡ some ctx
          → Bearer hash_token door (raw_token r.authorization) ctx)
      → serve app mono (client_key r) d s who ≡ (o, left_door, left)
      → ((a : A) × (o ≡ served a) × Admitted hash_token app mono r door s a left)
        ⊎ Refused mono r door left_door s o left
  unfolding serve
  serve-cases d left_door none o left free fails principals bearer h =
      let d2 : record d { fails = record_failure d.fails mono (client_key r) } ≡ left_door = cc in
      inr (record {
        answered = cc;
        unchanged = cc;
        principals = sym (ap (λ x. x.principals) d2) ∙ principals;
        recorded =
            sym (ap (λ x. x.fails) d2)
            ∙ ap (λ l. record_failure l mono (client_key r)) fails
            ∙ ap
                (λ b.
                  if b
                  then (is_banned door.fails mono (client_key r)).1
                  else record_failure (is_banned door.fails mono (client_key r)).1 mono
                      (client_key r))
                (sym free);
      })
  serve-cases d left_door (some ctx) o left free fails principals bearer h =
      let same : (app (some ctx) s).1 ≡ left = cc in
      let ran : app (some ctx) s ≡ ((app (some ctx) s).0, left) =
        ap (λ l. ((app (some ctx) s).0, l)) same in
      inl ((app (some ctx) s).0, cc, with_bearer ctx free (bearer ctx refl) ran)

  -- A request gets an answer of the application only if it is for the path `/healthz` or not HTTP at
  -- all, which ask for no bearer, or it carries a bearer that the tables admit: not empty, with the
  -- hash of a row that is not revoked, whose principal has a row that is not archived; the application
  -- then has that row's identity, and the client is not banned. Any other request is answered 401, the
  -- application's state and the principals are as they were, and the list of failures is the one that
  -- the ban's test left, with one failure more of this client if it was not banned.
  pub call-Admitted :
      (o : Response A) (left_door : Door) (left : S)
      → call hash_token app mono now r door s ≡ (o, left_door, left)
      → ((a : A) × (o ≡ served a) × Admitted hash_token app mono r door s a left)
        ⊎ Refused mono r door left_door s o left
  unfolding call
  call-Admitted o left_door left h = elim (Bool-cases (not r.is_http || r.path == "/healthz")) [
    | inl exempted ↦
        let e : ◌≡◌ {A = Response A × Door × S} (served (app none s).0, door, (app none s).1)
            (o, left_door, left) =
          ground (arith, exempted, h) in
        let same : (app none s).1 ≡ left = cc in
        inl ((app none s).0, cc, exempt exempted (ap (λ l. ((app none s).0, l)) same))
    | inr closed ↦ elim (Bool-cases (is_banned door.fails mono (client_key r)).0) [
      | inl banned ↦
          let e : ◌≡◌ {A = Response A × Door × S}
              (
                unauthorized_401,
                record door { fails = (is_banned door.fails mono (client_key r)).1 },
                s,
              )
              (o, left_door, left) =
            ground (arith, closed, banned, h) in
          let d2 : record door { fails = (is_banned door.fails mono (client_key r)).1 }
              ≡ left_door =
            cc in
          inr (record {
            answered = cc;
            unchanged = cc;
            principals = sym (ap (λ x. x.principals) d2);
            recorded =
                sym (ap (λ x. x.fails) d2)
                ∙ ap
                    (λ b.
                      if b
                      then (is_banned door.fails mono (client_key r)).1
                      else record_failure (is_banned door.fails mono (client_key r)).1 mono
                          (client_key r))
                    (sym banned);
          })
      | inr free ↦
          serve-cases
            (record door {
              fails = (is_banned door.fails mono (client_key r)).1;
              tokens =
                  tokens_after door.tokens
                    (resolve_token hash_token now door.tokens (raw_token r.authorization));
            })
            left_door
            (admitted door.principals
              (resolve_token hash_token now door.tokens (raw_token r.authorization)))
            o left free refl refl
            (λ ctx e. admitted-Bearer hash_token now door (raw_token r.authorization) ctx e)
            (ground (arith, closed, free, h))
    ]
  ]
