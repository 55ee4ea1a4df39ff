-- ===== src/Server/Auth/Gates.antt =====
-- engraphy/server/auth.py: what the gates let pass.
use mathlib.Core.Path.{subst}
use mathlib.Core.Option.{some-injective}
use engraphy.Base.{
  ℕ, String, ◌≡◌, refl, sym, ap, ◌≢◌, ==_self, any, ◌&&◌, In, All, ◌⊎◌, ==-eq, true, false, Option,
  none, some, List, [], ◌∷◌, ◌++◌, ◌==◌, contains, find_first, string_eq, nat_eq, arith, Bool-cases,
  inl, inr,
}
use engraphy.Server.RateLimit.{reads}
use engraphy.Server.Auth.{
  TokenRow, PrincipalRow, may_insert, Grant, minted_row, AuthContext, Resolved, identity,
  unauthorized, resolve_token, mint_token, write_tools, inbox_write_actions, classify_kind,
  require_write,
}

-- The row that a bearer's hash finds.
abbrev row_of : String → List TokenRow → Option TokenRow
row_of hash = find_first (λ r. r.token_hash == hash)

row_of-append :
    (hash : String) (tokens : List TokenRow) (r : TokenRow)
    → row_of hash tokens ≡ none
    → r.token_hash ≡ hash
    → row_of hash (tokens ++ r ∷ []) ≡ some r
row_of-append hash [] r fresh e = ground arith
row_of-append hash (t ∷ ts) r fresh e = ground (arith, row_of-append hash ts r)

abbrev pub IsIdentity : AuthContext → Resolved → Type 0
IsIdentity expected (identity ctx tokens) = ctx ≡ expected
IsIdentity expected (unauthorized e) = ⊥

abbrev pub identity_of : ℕ → Grant → AuthContext
identity_of id g = record {
  token_id = id;
  space_id = g.space_id;
  principal = g.principal;
  client_name = g.client_name;
  role = g.role;
  no_scope_all = g.no_scope_all;
}

resolved :
    (hash_token : String → String) (raw : String) (id now : ℕ) (g : Grant) (tokens : List TokenRow)
    → raw ≢ ""
    → find_first (λ r. r.token_hash == hash_token raw) tokens ≡ none
    → IsIdentity
        (identity_of id g)
        (resolve_token hash_token now (tokens ++ minted_row id (hash_token raw) g ∷ []) raw)
unfolding resolve_token minted_row
resolved hash raw id now g tokens filled fresh = elim (Bool-cases (raw == "")) [
  | inl blank ↦ absurd (filled (==-eq raw "" blank))
  | inr given ↦
      rw (given, row_of-append (hash raw) tokens (minted_row id (hash raw) g) fresh refl) refl
]

-- The terms of a grant that the tables take: the role is one of the two, the principal has a row, and
-- no row of the tokens is for the same client of this principal.
pub record IsGrantable (principals : List PrincipalRow) (g : Grant) (tokens : List TokenRow)
    : Type 0 where
  pub role : (g.role ≡ "readwrite") ⊎ (g.role ≡ "readonly")
  pub principal : PrincipalRow
  pub listed : In principal principals
  pub owner : (principal.space_id ≡ g.space_id) × (principal.id ≡ g.principal)
  pub free :
      All
        (λ t. ¬ (
          (t.space_id ≡ g.space_id)
          × (t.principal ≡ g.principal)
          × (t.client_name ≡ g.client_name)))
        tokens

role_of_two :
    (role : String)
    → contains ("readwrite" ∷ "readonly" ∷ []) role ≡ true
    → (role ≡ "readwrite") ⊎ (role ≡ "readonly")
role_of_two role h = elim (Bool-cases (role == "readwrite")) [
  | inl full ↦ inl (==-eq role "readwrite" full)
  | inr other ↦ inr (==-eq role "readonly" (ground (arith, other, h)))
]

listed_principal :
    (g : Grant) (rows : List PrincipalRow)
    → any (λ p. p.space_id == g.space_id && p.id == g.principal) rows ≡ true
    → (p : PrincipalRow) × In p rows × (p.space_id ≡ g.space_id) × (p.id ≡ g.principal)
listed_principal g [] h = cc
listed_principal g (p ∷ rows) h =
    elim (Bool-cases (p.space_id == g.space_id && p.id == g.principal)) [
      | inl this ↦ (p, inl refl, ==-eq _ _ (ground (arith, this)), ==-eq _ _ (ground (arith, this)))
      | inr other ↦
          let (q, there, a, b) = listed_principal g rows (ground (arith, other, h)) in
          (q, inr there, a, b)
    ]

no_row_of :
    (g : Grant) (rows : List TokenRow)
    → any
        (λ t.
          (t.space_id == g.space_id && t.principal == g.principal)
          && t.client_name == g.client_name)
        rows
      ≡ false
    → All
        (λ t. ¬ (
          (t.space_id ≡ g.space_id)
          × (t.principal ≡ g.principal)
          × (t.client_name ≡ g.client_name)))
        rows
no_row_of g [] h = tt
no_row_of g (t ∷ rows) h = (
  λ (a, b, c). absurd (
      ground (
        arith,
        h,
        ==-of t.space_id g.space_id a,
        ==-of t.principal g.principal b,
        ==-of t.client_name g.client_name c,
      )),
  no_row_of g rows (ground (arith, h)),
)
  where
    ==-of : (x y : String) → x ≡ y → (x == y) ≡ true
    ==-of x y e = subst (λ z. (x == z) ≡ true) e (==_self x)

-- A mint that succeeds gives back the plaintext that it was given, its grant is of a role, a principal
-- and a client that the tables take, and the next request with the plaintext has the identity that the
-- grant describes, provided that the plaintext is not empty and that no row had its hash before.
pub resolve_token-mint_token :
    (hash_token : String → String) (raw : String) (id now : ℕ) (principals : List PrincipalRow)
    (g : Grant) (tokens : List TokenRow) (given : String) (left : List TokenRow)
    → raw ≢ ""
    → find_first (λ r. r.token_hash == hash_token raw) tokens ≡ none
    → mint_token hash_token raw id principals g tokens ≡ some (given, left)
    → (given ≡ raw)
      × IsGrantable principals g tokens
      × IsIdentity (identity_of id g) (resolve_token hash_token now left given)
unfolding resolve_token mint_token may_insert
resolve_token-mint_token hash raw id now principals g tokens given left filled fresh h =
    elim (Bool-cases (may_insert principals g tokens)) [
      | inl taken ↦
          let (p, here, owner_space, owner_id) =
            listed_principal g principals (ground (arith, taken)) in
          let e : ◌≡◌ {A = String × List TokenRow} (raw, tokens ++ minted_row id (hash raw) g ∷ [])
              (given, left) =
            some-injective _ _ (rw taken at h) in
          (
            sym (ap (λ x. x.0) e),
            record {
              role = role_of_two g.role (ground (arith, taken));
              principal = p;
              listed = here;
              owner = (owner_space, owner_id);
              free = no_row_of g tokens (ground (arith, taken));
            },
            subst (λ x. IsIdentity (identity_of id g) (resolve_token hash now x.1 x.0)) e
                (resolved hash raw id now g tokens filled fresh),
          )
      | inr refused ↦ absurd (ground (arith, refused, h))
    ]

-- What a token that is not `readwrite` may call: the tools outside the write list, and of
-- `inbox_review` only what neither promotes nor discards.
abbrev pub IsReadCall : String → Option String → Type 0
IsReadCall tool_name action =
    ((tool_name ≡ "inbox_review")
      × ((a : String) → action ≡ some a → contains inbox_write_actions a ≡ false))
    ⊎ ((tool_name ≢ "inbox_review") × (contains write_tools tool_name ≡ false))

kind_of_tool :
    (tool_name : String) (action : Option String)
    → tool_name ≢ "inbox_review"
    → classify_kind tool_name action ≡ reads
    → contains write_tools tool_name ≡ false
unfolding classify_kind
kind_of_tool tool_name action other e = elim (Bool-cases (contains write_tools tool_name)) [
  | inl listed ↦ absurd (ground (arith, listed))
  | inr free ↦ free
]

kind_of_inbox :
    (tool_name a : String)
    → tool_name ≡ "inbox_review"
    → classify_kind tool_name (some a) ≡ reads
    → contains inbox_write_actions a ≡ false
unfolding classify_kind
kind_of_inbox tool_name a same e = ground arith

passed_as_read :
    (ctx : AuthContext) (tool_name : String) (action : Option String)
    → ctx.role ≢ "readwrite"
    → require_write ctx tool_name action ≡ true
    → classify_kind tool_name action ≡ reads
unfolding require_write
passed_as_read ctx tool_name action weak passed = ground arith

-- A token whose role is not `readwrite` passes the gate only with a read: `inbox_review` with no
-- action that promotes or discards, or another tool that is not on the write list.
pub require_write-IsReadCall :
    (ctx : AuthContext) (tool_name : String) (action : Option String)
    → ctx.role ≢ "readwrite"
    → require_write ctx tool_name action ≡ true
    → IsReadCall tool_name action
require_write-IsReadCall ctx tool_name action weak passed =
    let read = passed_as_read ctx tool_name action weak passed in
    elim (string_eq.dec tool_name "inbox_review") [
      | yes same ↦ inl (same, λ a e. kind_of_inbox tool_name a same (rw (← e) read))
      | no other ↦ inr (other, kind_of_tool tool_name action other read)
    ]
