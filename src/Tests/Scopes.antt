-- ===== src/Tests/Scopes.antt =====
-- engraphy/core/scopes.py at sample inputs.
use engraphy.Base.{◌≡◌, refl, string_eq, nat_eq, true}
use engraphy.Core.AttrSpec.{codes}
use engraphy.Core.Tx.{ok}
use engraphy.Core.Store.{Session}
use engraphy.Core.Scopes.{scope_item, scope_id_ok, new_scope, append_scope, is_taken, scope_create}
use engraphy.Core.Scopes.Owners.{scope_create-creates}
use engraphy.Tests.Samples.{alice, db}

abbrev bob : Session
bob = record { space = "main"; principal = "bob" }

scope_create-creates_example :
    scope_create (λ text. text) alice "work" "Work" "what happens at work" true db
    ≡ ok (
      scope_item (new_scope alice "work" "Work" "what happens at work" 20),
      append_scope (new_scope alice "work" "Work" "what happens at work" 20) db,
    )
unfolding string_eq scope_id_ok codes is_taken nat_eq
scope_create-creates_example =
    scope_create-creates (λ text. text) alice "work" "Work" "what happens at work" db refl refl refl
      refl
