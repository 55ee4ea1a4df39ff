-- ===== src/Core/Search/Found.antt =====
-- engraphy/core/search.py: the rows behind the ids of a fused list.
use mathlib.Core.Path.{subst}
use engraphy.Base.{
  ℕ, suc, ◌≤◌, String, ◌≡◌, refl, sym, ap, true, false, ◌&&◌, Option, none, some, List, [], ◌∷◌,
  length, find_first, ◌==◌, contains, string_eq, nat_eq, All, All-mono, Pairwise, arith, Bool-cases,
  inl, inr, In, In-keep, In-find_first, find_first-In, keep-In, In-same, ==-eq, ==_self,
}
use engraphy.Core.Store.{Db, Node, Session, visible, status_eq}
use engraphy.Core.Search.{Finder, passes, hydrate_union}
use engraphy.Core.Search.Query.{
  legs, union_ids, hybrid_fuse, add_item, hydrated, clamp_limit, Search, query_of, fused_for,
}
use engraphy.Core.Search.Fuse.{Scores}
use engraphy.Core.Search.Legs.{FoundId, hybrid_fuse-Passing}

-- The primary key: no two rows of the table have one id.
abbrev pub UniqueIds : List Node → Type 0
UniqueIds = Pairwise (λ m n. ¬ (m.id ≡ n.id))

pub same_row :
    (m n : Node) (ns : List Node) → UniqueIds ns → In m ns → In n ns → m.id ≡ n.id → m ≡ n
same_row m n ns u h k e =
    In-same (λ m n. ¬ (m.id ≡ n.id)) m n ns (λ x y d p. d (sym p)) u h k (λ d. d e)

module _ {A : Type 0} (item : ℕ → Node → A) (rows : List Node) where
  added :
      (score : ℕ) (found : Option Node) (rest : Option (List A)) (items : List A)
      → add_item item score found rest ≡ some items
      → (n : Node) × (later : List A) × (found ≡ some n)
        × (rest ≡ some later)
        × (items ≡ item score n ∷ later)
  unfolding add_item
  added score none rest items e = cc
  added score (some n) none items e = cc
  added score (some n) (some later) items e = (n, later, refl, refl, cc)

  pub hydrated-All :
      (P : A → Type 0) (Q : ℕ × ℕ → Type 0) (top : Scores) (items : List A)
      → ((id score : ℕ) (n : Node) → Q (id, score) → In n rows → n.id ≡ id → P (item score n))
      → All Q top
      → hydrated item rows top ≡ some items
      → All P items × (length items ≡ length top)
  unfolding hydrated
  hydrated-All P Q [] [] h qs e = (tt, refl)
  hydrated-All P Q [] (x ∷ items) h qs e = cc
  hydrated-All P Q ((id, score) ∷ top) items h (q, qs) e =
      let (n, rest, found, others, same) =
        added score (find_first (λ n. n.id == id) rows) (hydrated item rows top) items e in
      let (m, this) = In-find_first (λ n. n.id == id) n rows found in
      let (ps, size) = hydrated-All P Q top rest h qs others in
      subst (λ items. All P items × (length items ≡ suc (length top))) (sym same)
        ((h id score n q m (==-eq n.id id this), ps), ap suc size)

  pub hydrated-total :
      (top : Scores)
      → All (λ e. (n : Node) × In n rows × (n.id ≡ e.0)) top
      → (items : List A) × (hydrated item rows top ≡ some items)
  unfolding hydrated
  hydrated-total [] h = ([], refl)
  hydrated-total ((id, score) ∷ top) ((n, m, e), hs) =
      let (first, found) = find_first-In (λ n. n.id == id) n rows m (rw e (==_self id)) in
      let (items, rest) = hydrated-total top hs in
      (item score first ∷ items, rw (found, rest, add_item) refl)

some_leg : (ids : List ℕ) (j : ℕ) → contains ids j ≡ true → (length ids == 0) ≡ false
some_leg [] j h = cc
some_leg (x ∷ ids) j h = ground arith

module _ (t : Finder) (s : Session) (profile : String) (a : Search) (scopes : List String)
    (db : Db) where
  pub rows-In : (n : Node) → In n (fused_for t s profile a scopes db).rows → In n db.nodes
  unfolding fused_for hybrid_fuse hydrate_union
  rows-In n h = elim (Bool-cases (length scopes == 0)) [
    | inl empty ↦ elim (rw empty at h) [ ]
    | inr some_scope ↦
        elim (Bool-cases (length (union_ids (legs t s (query_of t a scopes) db)) == 0)) [
          | inl nothing ↦ elim (rw (some_scope, nothing) at h) [ ]
          | inr something ↦ (In-keep _ n db.nodes (rw (some_scope, something) at h)).0
        ]
  ]

  pub top-FoundId :
      All (FoundId t s (query_of t a scopes) db) (fused_for t s profile a scopes db).top
      × (length (fused_for t s profile a scopes db).top ≤ clamp_limit a.limit)
  unfolding fused_for query_of
  top-FoundId = elim (Bool-cases (length scopes == 0)) [
    | inl empty ↦ rw empty (tt, omega arith)
    | inr some_scope ↦
        let (found, distinct, within) = hybrid_fuse-Passing t s (query_of t a scopes) db profile in
        rw some_scope (found, within)
  ]

  -- Each id has its row among those that were fetched.
  pub rows-top :
      All
        (λ e. (n : Node) × In n (fused_for t s profile a scopes db).rows × (n.id ≡ e.0))
        (fused_for t s profile a scopes db).top
  unfolding fused_for hybrid_fuse hydrate_union passes query_of
  rows-top =
      let q = query_of t a scopes in
      let ids = union_ids (legs t s q db) in
      elim (Bool-cases (length scopes == 0)) [
        | inl empty ↦ rw empty tt
        | inr some_scope ↦
            All-mono _
              (λ e ((n, m, same, passed), leg). (
                n,
                rw (some_scope, some_leg ids e.0 leg)
                    (keep-In (λ n. contains ids n.id && visible s db n) n db.nodes m
                      (ground (arith, passed, leg, ap (contains ids) same))),
                same,
              ))
              top-FoundId.0
      ]
