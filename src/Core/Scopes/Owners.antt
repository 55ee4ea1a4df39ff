-- ===== src/Core/Scopes/Owners.antt =====
-- engraphy/core/scopes.py: who may use a scope that was created.
use engraphy.Base.{
  String, ◌≡◌, refl, Bool, true, false, ◌&&◌, some, List, [], ◌∷◌, ◌++◌, map, any, keep, find_first,
  ◌==◌, contains, string_eq, arith, ==_self,
}
use engraphy.Core.AttrSpec.{codes}
use engraphy.Core.Tx.{ok}
use engraphy.Core.Tx.Runs.{bind-ok, gets-ok, pure-ok, modify-ok, or_raise-ok, require-ok}
use engraphy.Core.Store.{
  Db, Session, ScopeRow, can_read, can_write_scope, readable_scopes, writable_scopes,
}
use engraphy.Core.Scopes.{
  scope_item, scope_visible, scope_id_ok, new_scope, append_scope, is_taken, select_scope,
  scope_create,
}

module _ (p : ScopeRow → Bool) (x : ScopeRow) where
  contains-map-keep-snoc :
      (xs : List ScopeRow)
      → p x ≡ true
      → contains (map (λ r. r.id) (keep p (xs ++ x ∷ []))) x.id ≡ true
  contains-map-keep-snoc [] h = ground (arith, h, ==_self x.id)
  contains-map-keep-snoc (y ∷ ys) h = ground (arith, contains-map-keep-snoc ys h)

  find_first-snoc :
      (q : ScopeRow → Bool) (xs : List ScopeRow)
      → ((r : ScopeRow) → q r ≡ false → p r ≡ false)
      → any q xs ≡ false
      → p x ≡ true
      → find_first p (xs ++ x ∷ []) ≡ some x
  find_first-snoc q [] less none_yet h = rw h refl
  find_first-snoc q (y ∷ ys) less none_yet h = ground (arith, less y, find_first-snoc q ys less, h)

module _ (s : Session) (id display_name description : String) (db : Db) where
  new : ScopeRow
  new = new_scope s id display_name description db.now

  created : Db
  created = append_scope new db

  owner_reads : can_read s created new ≡ true
  unfolding can_read new new_scope
  owner_reads = ground (arith, ==_self s.space, ==_self s.principal)

  owner_writes : can_write_scope s created new ≡ true
  unfolding can_write_scope new new_scope
  owner_writes = ground (arith, ==_self s.space, ==_self s.principal)

  reads : contains (readable_scopes s created) id ≡ true
  unfolding readable_scopes created append_scope new new_scope
  reads = contains-map-keep-snoc (can_read s created) new db.scopes owner_reads

  finds : is_taken s id db ≡ false → select_scope s id created ≡ some new
  unfolding is_taken select_scope scope_visible created append_scope new new_scope
  finds free =
      find_first-snoc _ new (λ r. r.space == s.space && r.id == id) db.scopes
        (λ r h. ground (arith, h)) free (ground (arith, ==_self id, ==_self s.space, reads))

-- What the creation of a scope leaves, for its owner and for another session.
pub record Private (s other : Session) (id : String) (db after : Db) : Type 0 where
  pub free : is_taken s id db ≡ false
  pub rows : (r : ScopeRow) × (after ≡ append_scope r db)
  pub owner_reads : contains (readable_scopes s after) id ≡ true
  pub owner_writes : contains (writable_scopes s after) id ≡ true
  pub others_read : readable_scopes other after ≡ readable_scopes other db
  pub others_write : writable_scopes other after ≡ writable_scopes other db

-- A confirmed creation with a description that is not blank, under an id of the allowed form that no
-- scope of the space has, always commits, adds exactly the one scope, and answers with its row.
pub scope_create-creates :
    (strip : String → String) (s : Session) (id display_name description : String) (db : Db)
    → (description == "") ≡ false
    → (strip description == "") ≡ false
    → scope_id_ok (codes id) ≡ true
    → is_taken s id db ≡ false
    → scope_create strip s id display_name description true db
      ≡ ok (
        scope_item (new_scope s id display_name description db.now),
        append_scope (new_scope s id display_name description db.now) db,
      )
unfolding scope_create created new
scope_create-creates strip s id display_name description db told said spelled free =
    bind-ok _ _ db (require-ok true _ db refl) (
      bind-ok _ _ db (require-ok _ _ db (ground (arith, told, said))) (
        bind-ok _ _ db (require-ok _ _ db spelled) (
          bind-ok _ _ db (gets-ok _ db) (
            bind-ok _ _ db (require-ok _ _ db (ground (arith, free))) (
              bind-ok _ _ db (gets-ok _ db) (
                bind-ok _ _ db (modify-ok _ db) (
                  bind-ok _ _ _ (gets-ok _ _) (
                    bind-ok _ _ _ (or_raise-ok _ _ _ (finds s id display_name description db free))
                      (pure-ok _ _)))))))))
