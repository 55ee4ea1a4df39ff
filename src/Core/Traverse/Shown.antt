-- ===== src/Core/Traverse/Shown.antt =====
-- engraphy/core/traverse.py: what an answer of `traverse` shows.
use mathlib.Core.Path.{subst}
use engraphy.Base.{
  ==-eq, ℕ, suc, ◌+◌, ◌≤◌, ◌≡◌, refl, sym, ◌⊎◌, inl, inr, Bool, true, false, not, ◌&&◌, Option,
  none, some, List, [], ◌∷◌, ◌++◌, ℤ, pos, negsuc, length, keep, take, ◌==◌, string_eq, nat_eq,
  if◌then◌else◌, All, All-sort_by, In-All, In-take, In-sort_by, In-find_first, In, arith,
  Bool-cases, Option-cases, length-sort_by, length-take, length-append, All-append, All-mono,
}
use engraphy.Core.AttrSpec.{Dates}
use engraphy.Core.Tx.{Tx, value_error}
use engraphy.Core.Tx.Leads.{
  Leads, Returns, Leads-pure, Leads-bind, Leads-gets, Leads-any, Leads-require,
}
use engraphy.Core.Store.{
  Db, Session, Node, Edge, archived, status_eq, visible, readable_edge, select_node,
}
use engraphy.Core.Get.{EdgeSummary}
use engraphy.Core.Search.Query.{node_envelope}
use engraphy.Core.Traverse.{Walked, walk, walk_rows}
use engraphy.Core.Traverse.Walk.{Reaches, walk-depth, walk-Reaches, walk-edge}
use engraphy.Core.Traverse.Loops.{
  depth_of-All, depth_of-length, hydrate-All, entries-All, entries-length,
}
use engraphy.Core.Traverse.Reply.{
  Traversal, clamp, steps_of, depth_of, is_seen, edges_out, Entry, Hydrated, entry_of, entries,
  start_entry, entry_before, keeps_edge, TraverseItem, show_entry, show_all, TraverseReply,
  sorted_entries, traverse, max_depth_cap, limit_cap,
}

clamp-range : (cap : ℕ) (n : ℤ) → 1 ≤ cap → (1 ≤ clamp cap n) × (clamp cap n ≤ cap)
unfolding clamp
clamp-range cap (pos n) h = (omega arith, omega arith)
clamp-range cap (negsuc n) h = (omega arith, h)

-- Where a node of the answer comes from: it is the start, or the canonical node of one that can be
-- reached in as many hops as its depth, at most four.
abbrev pub From : Session → Traversal → Db → ℕ → ℕ → Option ℕ → Type 0
From s a db id depth resolved_from =
    ((id ≡ a.start_id) × (depth ≡ 0) × (resolved_from ≡ none))
    ⊎ ((m : ℕ) × Reaches s (steps_of a) db m depth
        × (depth ≤ max_depth_cap)
        × (resolved_from ≡ (if id == m then none else some m)))

-- A node of the answer: a row that the session sees, not archived if it is not the start.
pub record ShownNode (s : Session) (a : Traversal) (db : Db) (i : TraverseItem) : Type 0 where
  pub row : Node
  pub stored : In row db.nodes
  pub seen : visible s db row ≡ true
  pub shape : i.node ≡ node_envelope a.detail row
  pub current : row.status ≡ archived → row.id ≡ a.start_id
  pub from : From s a db row.id i.depth i.resolved_from

-- An edge of the answer: one of the table that the session reads.
pub record ShownEdge (s : Session) (db : Db) (x : EdgeSummary) : Type 0 where
  pub edge : Edge
  pub stored : In edge db.edges
  pub seen : readable_edge s db edge ≡ true
  pub shape : x ≡ record { src = edge.src; dst = edge.dst; edge_type = edge.edge_type }

pub record TraverseAnswer (s : Session) (a : Traversal) (db : Db) (r : TraverseReply) : Type 0 where
  pub nodes : All (ShownNode s a db) r.nodes
  pub edges : All (ShownEdge s db) r.edges
  pub node_count : length r.nodes ≤ suc limit_cap
  pub edge_count : length r.edges ≤ limit_cap

length-keep : {A : Type 0} (p : A → Bool) (xs : List A) → length (keep p xs) ≤ length xs
length-keep p [] = omega arith
length-keep p (x ∷ xs) =
    let rest = length-keep p xs in
    elim (Bool-cases (p x)) [ inl kept ↦ rw kept (omega arith) | inr left ↦ rw left (omega arith) ]

keep-All : {A : Type 0} (P : A → Type 0) (p : A → Bool) (xs : List A) → All P xs → All P (keep p xs)
keep-All P p [] h = tt
keep-All P p (x ∷ xs) (q, qs) = elim (Bool-cases (p x)) [
  | inl kept ↦ rw kept (q, keep-All P p xs qs)
  | inr left ↦ rw left (keep-All P p xs qs)
]

module _ (s : Session) (a : Traversal) (db : Db) where
  entry-ShownNode :
      (e : Entry) (n : Node)
      → select_node s e.id db ≡ some n
      → (n.status == archived && not (e.id == a.start_id)) ≡ false
      → From s a db e.id e.depth e.resolved_from
      → ShownNode s a db (record {
        node = node_envelope a.detail n;
        depth = e.depth;
        resolved_from = e.resolved_from;
      })
  unfolding select_node
  entry-ShownNode e n found kept from =
      let (here, passed) = In-find_first (λ n. n.id == e.id && visible s db n) n db.nodes found in
      let same : n.id ≡ e.id = ==-eq n.id e.id (ground (arith, passed)) in
      record {
        row = n;
        stored = here;
        seen = ground (arith, passed);
        shape = refl;
        current = λ gone. ground (arith, gone, kept, same, ==-eq e.id a.start_id);
        from = subst (λ id. From s a db id e.depth e.resolved_from) (sym same) from;
      }

  show_all-All :
      (es : List Entry)
      → All (λ e. From s a db e.id e.depth e.resolved_from) es
      → All (ShownNode s a db) (show_all s db a.detail a.start_id es).nodes
        × (length (show_all s db a.detail a.start_id es).nodes ≤ length es)
  unfolding show_all show_entry
  show_all-All [] h = (tt, omega arith)
  show_all-All (e ∷ es) (p, ps) =
      let (q, l) = show_all-All es ps in
      elim (Option-cases (select_node s e.id db)) [
        | inl missing ↦ rw missing (q, omega arith)
        | inr (n, found) ↦ elim (Bool-cases (n.status == archived && not (e.id == a.start_id))) [
          | inl gone ↦ rw (found, gone) (q, omega arith)
          | inr kept ↦ rw (found, kept) ((entry-ShownNode e n found kept p, q), omega arith)
        ]
      ]

  seen_edge :
      (w : Walked)
      → In w (walk s (steps_of a) db)
      → ShownEdge s db (record { src = w.edge.src; dst = w.edge.dst; edge_type = w.edge.edge_type })
  seen_edge w h =
      let (here, may) = walk-edge s (steps_of a) db w h in
      record { edge = w.edge; stored = here; seen = may; shape = refl }

  edges_out-All :
      (xs : List EdgeSummary) (ws : List Walked)
      → All (ShownEdge s db) xs
      → All (λ w. In w (walk s (steps_of a) db)) ws
      → All (ShownEdge s db) (edges_out xs ws) × (length (edges_out xs ws) ≤ length xs + length ws)
  unfolding edges_out
  edges_out-All xs [] h ps = (h, omega arith)
  edges_out-All xs (w ∷ ws) h (p, ps) = elim (Bool-cases (is_seen xs w)) [
    | inl old ↦ let (q, l) = edges_out-All xs ws h ps in rw old (q, omega arith)
    | inr new ↦
        let e : EdgeSummary = record {
          src = w.edge.src;
          dst = w.edge.dst;
          edge_type = w.edge.edge_type;
        } in
        let (q, l) =
          edges_out-All (xs ++ e ∷ []) ws (All-append _ xs (e ∷ []) h (seen_edge w p, tt)) ps in
        let more = length-append xs (e ∷ []) in rw new (q, omega arith)
  ]

  rows-In :
      (n : ℕ)
      → All (λ w. In w (walk s (steps_of a) db)) (take n (walk_rows s (steps_of a) (n + 1) db))
  unfolding walk_rows
  rows-In n = In-All _ _ (λ w h. In-sort_by _ w _ (In-take (n + 1) w _ (In-take n w _ h)))

  rows-Reaches :
      (ws : List Walked)
      → All (λ w. In w (walk s (steps_of a) db)) ws
      → All (λ w. Reaches s (steps_of a) db w.node w.depth × (w.depth ≤ max_depth_cap)) ws
  unfolding steps_of
  rows-Reaches ws = All-mono ws (λ w h.
      let (low, high) = clamp-range max_depth_cap a.max_depth (omega arith) in
      let deep = walk-depth s (steps_of a) db w low h in
      (walk-Reaches s (steps_of a) db w h, omega arith))

  hydrated-From :
      (hs : List Hydrated)
      → All (λ h. Reaches s (steps_of a) db h.node h.depth × (h.depth ≤ max_depth_cap)) hs
      → All (λ e. From s a db e.id e.depth e.resolved_from) (sorted_entries a.start_id hs)
        × (length (sorted_entries a.start_id hs) ≤ suc (length hs))
  unfolding sorted_entries start_entry entry_of
  hydrated-From hs h =
      let size = length-sort_by entry_before (entries (start_entry a.start_id ∷ []) hs) in
      let grown = entries-length (start_entry a.start_id ∷ []) hs in
      let P : Entry → Type 0 = λ e. From s a db e.id e.depth e.resolved_from in
      (
        All-sort_by P entry_before _ (
            entries-All P (start_entry a.start_id ∷ []) hs (inl (refl, refl, refl), tt)
              (All-mono hs (λ x (r, d). inr (x.node, r, d, refl)) h)),
        omega arith,
      )

  with_fact :
      {B : Type 0} {Q : B → Db → Type 0} (F : Type 0) (m : Tx Db B)
      → (F → Leads (λ x. x ≡ db) m Q)
      → Leads (λ x. F × (x ≡ db)) m Q
  with_fact F m h = record { at = λ x (f, e). (h f).at x e }

  Leads-traverse :
      (dates : Dates) → Leads (λ x. x ≡ db) (traverse dates s a) (λ r x. TraverseAnswer s a db r)
  unfolding traverse
  Leads-traverse dates =
      let n = clamp limit_cap a.limit in
      let rows : List Walked = take n (walk_rows s (steps_of a) (n + 1) db) in
      let size : length rows ≤ n =
        omega (arith, length-take n (walk_rows s (steps_of a) (n + 1) db)) in
      let (low, high) = clamp-range limit_cap a.limit (omega arith) in
      let (edges, edge_size) = edges_out-All [] rows tt (rows-In n) in
      let P : ℕ → ℕ → Type 0 = λ m d. Reaches s (steps_of a) db m d × (d ≤ max_depth_cap) in
      Leads-require _ value_error _ (λ ok. Leads-gets _ _ (
        Leads-bind
          (hydrate-All P s db (depth_of [] rows)
            (depth_of-All P [] rows tt (rows-Reaches rows (rows-In n))))
          (λ hs. with_fact _ _ (λ (reached, hs_size).
            let (origins, es_size) = hydrated-From hs reached in
            let (nodes, node_size) = show_all-All (sorted_entries a.start_id hs) origins in
            let depths = depth_of-length [] rows in
            Leads-gets _ _ (
              Leads-bind {R = λ u x. Unit} (Leads-any _) (λ u.
                let out = show_all s db a.detail a.start_id (sorted_entries a.start_id hs) in
                let less = length-keep (keeps_edge hs out.hidden) (edges_out [] rows) in
                Leads-pure _ (λ x k. record {
                  nodes = nodes;
                  edges =
                      keep-All (ShownEdge s db) (keeps_edge hs out.hidden) (edges_out [] rows)
                        edges;
                  node_count = omega arith;
                  edge_count = omega arith;
                })))))))

-- An answer of `traverse` shows at most 51 nodes and 50 edges, whatever depth and limit are asked for.
-- Each node is the envelope of a row of the table that the session sees, archived only if it is the
-- start; it is the start at depth 0, or stands for a node that can be reached from it, in as many hops
-- as its depth says and at most four, over edges that the session reads and past no archived node: it
-- is that node itself, or says in `resolved_from` that it is another. Each edge is one of the table
-- that the session reads.
pub traverse-TraverseAnswer :
    (dates : Dates) (s : Session) (a : Traversal) (db : Db)
    → Returns (λ r x. TraverseAnswer s a db r) (traverse dates s a db)
traverse-TraverseAnswer dates s a db = (Leads-traverse s a db dates).at db refl
