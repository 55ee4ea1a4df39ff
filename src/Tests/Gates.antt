-- ===== src/Tests/Gates.antt =====
-- The other theorems at concrete inputs.
use engraphy.Base.{
  ℕ, suc, ◌+◌, ◌*◌, ◌≤◌, ◌<◌, String, ◌≡◌, ◌≢◌, refl, ◌⊎◌, inl, inr, Bool, true, false, Option,
  none, some, List, [], ◌∷◌, ℤ, pos, arith, string_eq, ==-ne,
}
use engraphy.Core.Json.{Json, Fields, end, field, str, int, get, obj}
use engraphy.Core.AttrSpec.{
  Spec, Rule, Condition, Check, typed, TypeName, string_type, int_type, sanitize_attrs,
  validate_attrs, bucket, droppable,
}
use engraphy.Core.AttrSpec.Sanitize.{sanitize_attrs-keeps}
use engraphy.Core.AttrSpec.Phases.{sanitize_attrs-refused}
use engraphy.Server.RateLimit.{writes, no_events}
use engraphy.Server.RateLimit.Refinement.{Call, run, spec_run, run-eq-spec_run}
use engraphy.Server.RateLimit.Failures.{Failure}
use engraphy.Server.Auth.{TokenRow, PrincipalRow, Grant, minted_row, resolve_token, mint_token}
use engraphy.Server.Auth.Gates.{IsGrantable, IsIdentity, identity_of, resolve_token-mint_token}
use engraphy.Tests.Samples.{dates}

abbrev spec : Spec
spec = record {
  required = ("owner", record { searchable = none; check = typed string_type }) ∷ [];
  optional = ("size", record { searchable = none; check = typed int_type }) ∷ [];
  requires = record { when_key = "kind"; equals = "box"; key = "size" } ∷ [];
  closed = false;
}

abbrev bad_attrs : Fields
bad_attrs = field "owner" (str "alice") (field "kind" (str "box") (field "size" (str "large") end))

sanitize_attrs-keeps_example :
    (get "size" (sanitize_attrs dates spec bad_attrs).0 ≡ some (str "large"))
    ⊎ ((e : String) × (get "size" (bucket (sanitize_attrs dates spec bad_attrs).0)
          ≡ some (obj (field "value" (str "large") (field "error" (str e) end)))))
unfolding engraphy.Core.Json.get engraphy.Core.Json.put engraphy.Core.Json.keys
    engraphy.Core.Json.without engraphy.Core.Json.has engraphy.Core.Json.sorted
    engraphy.Core.Json.items_append engraphy.Core.AttrSpec.find_rule engraphy.Core.AttrSpec.rule_of
    engraphy.Core.AttrSpec.date_re engraphy.Core.AttrSpec.check_value
    engraphy.Core.AttrSpec.value_error engraphy.Core.AttrSpec.bucket
    engraphy.Core.AttrSpec.presence_errors engraphy.Core.AttrSpec.condition_errors
    engraphy.Core.AttrSpec.unknown_errors engraphy.Core.AttrSpec.value_errors
    engraphy.Core.AttrSpec.validate_attrs engraphy.Core.AttrSpec.droppable
    engraphy.Core.AttrSpec.droppable_errors engraphy.Core.AttrSpec.entry
    engraphy.Core.AttrSpec.sanitize_attrs engraphy.Core.AttrSpec.searchable_keys
    engraphy.Base.string_eq
sanitize_attrs-keeps_example =
    sanitize_attrs-keeps dates spec bad_attrs "size" (str "large") (==-ne "size" "dropped" refl)
      refl

sanitize_attrs-refused_example :
    validate_attrs dates spec (sanitize_attrs dates spec bad_attrs).0 ≢ []
unfolding engraphy.Core.Json.get engraphy.Core.Json.put engraphy.Core.Json.keys
    engraphy.Core.Json.without engraphy.Core.Json.has engraphy.Core.Json.sorted
    engraphy.Core.Json.items_append engraphy.Core.AttrSpec.find_rule engraphy.Core.AttrSpec.rule_of
    engraphy.Core.AttrSpec.date_re engraphy.Core.AttrSpec.check_value
    engraphy.Core.AttrSpec.value_error engraphy.Core.AttrSpec.bucket
    engraphy.Core.AttrSpec.presence_errors engraphy.Core.AttrSpec.condition_errors
    engraphy.Core.AttrSpec.unknown_errors engraphy.Core.AttrSpec.value_errors
    engraphy.Core.AttrSpec.validate_attrs engraphy.Core.AttrSpec.droppable
    engraphy.Core.AttrSpec.droppable_errors engraphy.Core.AttrSpec.entry
    engraphy.Core.AttrSpec.sanitize_attrs engraphy.Core.AttrSpec.searchable_keys
    engraphy.Base.string_eq
sanitize_attrs-refused_example =
    sanitize_attrs-refused dates spec bad_attrs [] []
      (record { when_key = "kind"; equals = "box"; key = "size" }) _ refl
      (==-ne "kind" "dropped" refl) refl refl (==-ne "size" "dropped" refl) refl

abbrev calls : List Call
calls =
    record { now = 5; token = "a"; kind = writes }
    ∷ record { now = 9; token = "a"; kind = writes }
    ∷ record { now = 60000005; token = "a"; kind = writes }
    ∷ []

run-eq-spec_run_example : run 60 1 calls no_events ≡ spec_run 60 1 calls (λ _ _. [])
run-eq-spec_run_example = run-eq-spec_run 60 1 calls (omega arith, (omega arith, (omega arith, tt)))

abbrev failures : List Failure
failures = record { now = 3; key = "host" } ∷ record { now = 4; key = "other" } ∷ []

abbrev grant : Grant
grant = record {
  space_id = "main";
  principal = "alice";
  client_name = "phone";
  role = "readonly";
  no_scope_all = true;
}

abbrev token_row : TokenRow
token_row = record {
  id = 1;
  space_id = "main";
  principal = "alice";
  client_name = "cli";
  token_hash = "abc";
  role = "readwrite";
  revoked = false;
  no_scope_all = false;
  last_used_at = none;
}

abbrev alice_row : PrincipalRow
alice_row = record { space_id = "main"; id = "alice"; archived = false }

abbrev minted : List TokenRow
minted = token_row ∷ minted_row 2 "def" grant ∷ []

mint_run :
    mint_token (λ s. s) "def" 2 (alice_row ∷ []) grant (token_row ∷ []) ≡ some ("def", minted)
unfolding mint_token string_eq
mint_run = refl

resolve_token-mint_token_example :
    (◌≡◌ {A = String} "def" "def")
    × IsGrantable (alice_row ∷ []) grant (token_row ∷ [])
    × IsIdentity (identity_of 2 grant) (resolve_token (λ s. s) 5 minted "def")
unfolding string_eq
resolve_token-mint_token_example =
    resolve_token-mint_token (λ s. s) "def" 2 5 (alice_row ∷ []) grant (token_row ∷ []) "def" minted
      (==-ne "def" "" refl) refl mint_run
