-- ===== src/Core/Traverse/Loops.antt =====
-- engraphy/core/traverse.py: the loops between the rows of the query and the nodes of the answer.
use mathlib.Core.Path.{subst}
use engraphy.Base.{
  ℕ, suc, ◌+◌, ◌≤◌, ◌≡◌, refl, sym, ap, ◌⊎◌, inl, inr, List, [], ◌∷◌, leb, ltb, min, length, ◌==◌,
  string_eq, nat_eq, All, arith, Bool-cases, ==-eq,
}
use engraphy.Core.Tx.Leads.{Leads, Leads-pure, Leads-bind, Leads-after}
use engraphy.Core.Store.{Db, Session, status_eq}
use engraphy.Core.Dedup.Moves.{Keeps-resolve_canonical}
use engraphy.Core.Traverse.{Walked}
use engraphy.Core.Traverse.Reply.{
  note_depth, depth_of, Entry, enter, Hydrated, hydrate, entry_of, entries,
}

min-cases : (a b : ℕ) → (min a b ≡ a) ⊎ (min a b ≡ b)
min-cases a b = elim (Bool-cases (leb a b)) [
  | inl le ↦ inl (ground (arith, le))
  | inr gt ↦ inr (ground (arith, gt))
]

-- A node and a depth, of a list.
abbrev pub At : (ℕ → ℕ → Type 0) → ℕ × ℕ → Type 0
At P (node, depth) = P node depth

module _ (P : ℕ → ℕ → Type 0) where
  min-P : (n d e : ℕ) → P n d → P n e → P n (min d e)
  min-P n d e p q = elim (min-cases d e) [
    | inl l ↦ subst (P n) (sym l) p
    | inr r ↦ subst (P n) (sym r) q
  ]

  note_depth-All :
      (n d : ℕ) (ds : List (ℕ × ℕ)) → P n d → All (At P) ds → All (At P) (note_depth n d ds)
  unfolding note_depth
  note_depth-All n d [] p h = (p, tt)
  note_depth-All n d ((m, e) ∷ ds) p (q, qs) = elim (Bool-cases (m == n)) [
    | inl same ↦ rw same (min-P m d e (subst (λ x. P x d) (sym (==-eq m n same)) p) q, qs)
    | inr other ↦ rw other (q, note_depth-All n d ds p qs)
  ]

  pub depth_of-All :
      (ds : List (ℕ × ℕ)) (ws : List Walked)
      → All (At P) ds
      → All (λ w. P w.node w.depth) ws
      → All (At P) (depth_of ds ws)
  unfolding depth_of
  depth_of-All ds [] h ps = h
  depth_of-All ds (w ∷ ws) h (p, ps) =
      depth_of-All (note_depth w.node w.depth ds) ws (note_depth-All w.node w.depth ds p h) ps

note_depth-length : (n d : ℕ) (ds : List (ℕ × ℕ)) → length (note_depth n d ds) ≤ suc (length ds)
unfolding note_depth
note_depth-length n d [] = omega arith
note_depth-length n d ((m, e) ∷ ds) = elim (Bool-cases (m == n)) [
  | inl same ↦ rw same (omega arith)
  | inr other ↦ let shorter = note_depth-length n d ds in rw other (omega arith)
]

pub depth_of-length :
    (ds : List (ℕ × ℕ)) (ws : List Walked) → length (depth_of ds ws) ≤ length ds + length ws
unfolding depth_of
depth_of-length ds [] = omega arith
depth_of-length ds (w ∷ ws) =
    let rest = depth_of-length (note_depth w.node w.depth ds) ws in
    let one = note_depth-length w.node w.depth ds in omega arith

module _ (P : ℕ → ℕ → Type 0) (s : Session) (db : Db) where
  pub hydrate-All :
      (ds : List (ℕ × ℕ))
      → All (At P) ds
      → Leads
          (λ x. x ≡ db)
          (hydrate s ds)
          (λ hs x.
            (All (λ (h : Hydrated). P h.node h.depth) hs × (length hs ≡ length ds)) × (x ≡ db))
  unfolding hydrate
  hydrate-All [] h = Leads-pure _ (λ x e. ((tt, refl), e))
  hydrate-All ((n, d) ∷ ds) (p, ps) = Leads-after (Keeps-resolve_canonical s n) (λ canon.
      Leads-bind (hydrate-All ds ps)
        (λ rest. Leads-pure _ (λ x ((q, l), e). (((p, q), ap suc l), e))))

module _ (Q : Entry → Type 0) where
  enter-All : (x : Entry) (es : List Entry) → Q x → All Q es → All Q (enter x es)
  unfolding enter
  enter-All x [] q qs = (q, tt)
  enter-All x (y ∷ ys) q (p, ps) = elim (Bool-cases (y.id == x.id)) [
    | inl same ↦ elim (Bool-cases (ltb x.depth y.depth)) [
      | inl less ↦ rw (same, less) (q, ps)
      | inr more ↦ rw (same, more) (p, ps)
    ]
    | inr other ↦ rw other (p, enter-All x ys q ps)
  ]

  pub entries-All :
      (es : List Entry) (hs : List Hydrated)
      → All Q es
      → All (λ h. Q (entry_of h)) hs
      → All Q (entries es hs)
  unfolding entries
  entries-All es [] q qs = q
  entries-All es (h ∷ hs) q (p, ps) =
      entries-All (enter (entry_of h) es) hs (enter-All (entry_of h) es p q) ps

enter-length : (x : Entry) (es : List Entry) → length (enter x es) ≤ suc (length es)
unfolding enter
enter-length x [] = omega arith
enter-length x (y ∷ ys) = elim (Bool-cases (y.id == x.id)) [
  | inl same ↦ rw same (omega arith)
  | inr other ↦ let shorter = enter-length x ys in rw other (omega arith)
]

pub entries-length :
    (es : List Entry) (hs : List Hydrated) → length (entries es hs) ≤ length es + length hs
unfolding entries
entries-length es [] = omega arith
entries-length es (h ∷ hs) =
    let rest = entries-length (enter (entry_of h) es) hs in
    let one = enter-length (entry_of h) es in omega arith
