-- ===== src/Core/Get/Blind.antt =====
-- What a session cannot see has no part in what it reads.
use engraphy.Base.{
  ℕ, ◌≡◌, refl, Bool, true, ◌&&◌, List, [], ◌∷◌, keep, any, find_first, ◌==◌, nat_eq, string_eq,
  arith,
}
use engraphy.Core.Store.{
  Db, Session, Node, Edge, visible, readable_scopes, readable_edge, select_node,
}

-- The tables with the rows that the session cannot see taken out.
unfoldable pub blind : Session → Db → Db
blind s db = record db { nodes = keep (visible s db) db.nodes }

module _ {A : Type 0} (p q : A → Bool) (within : (x : A) → p x ≡ true → q x ≡ true) where
  pub keep-keep : (xs : List A) → keep p (keep q xs) ≡ keep p xs
  keep-keep [] = refl
  keep-keep (x ∷ xs) = ground (arith, keep-keep xs, within x)

  pub find_first-keep : (xs : List A) → find_first p (keep q xs) ≡ find_first p xs
  find_first-keep [] = refl
  find_first-keep (x ∷ xs) = ground (arith, find_first-keep xs, within x)

  pub any-keep : (xs : List A) → any p (keep q xs) ≡ any p xs
  any-keep [] = refl
  any-keep (x ∷ xs) = ground (arith, any-keep xs, within x)

module _ (s : Session) (db : Db) where
  pub visible-blind : (n : Node) → visible s (blind s db) n ≡ visible s db n
  unfolding blind visible readable_scopes
  visible-blind n = refl

  pub select_node-blind : (id : ℕ) → select_node s id (blind s db) ≡ select_node s id db
  unfolding select_node blind visible readable_scopes
  select_node-blind id =
      find_first-keep (λ n. n.id == id && visible s db n) (visible s db) (λ n h. ground (arith, h))
        db.nodes

  pub readable_edge-blind : (e : Edge) → readable_edge s (blind s db) e ≡ readable_edge s db e
  unfolding readable_edge blind visible readable_scopes
  readable_edge-blind e =
      rw
        (
          any-keep (λ n. n.id == e.src && visible s db n) (visible s db) (λ n h. ground (arith, h))
              db.nodes,
          any-keep (λ n. n.id == e.dst && visible s db n) (visible s db) (λ n h. ground (arith, h))
              db.nodes,
        )
        refl
