-- ===== src/Core/Dedup/Accounts.antt =====
-- engraphy/core/dedup.py: what `write` does with the text it is given, whatever the band.
pub mod Write
use mathlib.Core.Path.{subst}
use engraphy.Base.{
  ℕ, ◌+◌, String, ◌≡◌, refl, sym, ◌∙◌, ap, Bool, true, false, Option, none, some, List, [], ◌∷◌,
  ◌++◌, ℤ, ◌⊎◌, inl, inr, ◌==◌, ==-eq, nat_eq, if◌then◌else◌, Bool-cases, find_first, ◌&&◌, arith,
}
use engraphy.Core.AttrSpec.{DroppedAttr}
use engraphy.Core.Jaccard.{is_novel}
use engraphy.Core.Tx.{Tx, Error, pure, gets, or_raise, ◌>>=◌, ◌>>◌}
use engraphy.Core.Tx.Keeps.{Keeps-pure, Keeps-gets, Keeps-require, Keeps-bind}
use engraphy.Core.Tx.Leads.{
  Leads, Returns, Leads-pure, Leads-if, Leads-or_raise, Leads-modify, Leads-bind, Leads-after,
  Leads-some, Leads-any, Leads-gets,
}
use engraphy.Core.Store.{
  Candidate, Payload, active, Db, Node, Edge, Session, PendingRow, LogBand, add_edge, has_edge,
  append_node, select_node, visible, insert_node, log_dedup, log_audit,
}
use engraphy.Core.Store.Moves.{Keeps-unless_error}
use engraphy.Core.Dedup.Bands.{BandThresholds, Band}
use engraphy.Core.Dedup.Envelope.{
  Env, Incoming, NodeView, Envelope, inserted, merged, merged_linked, needs_confirmation,
  review_queued, merged_silently, merged_linked_silently, Reply,
}
use engraphy.Core.Dedup.Candidates.{corpus_of}
use engraphy.Core.Dedup.Branches.{
  new_node, view_of, payload_of, pending_ttl, do_insert, do_review_queue, do_pending, park,
  do_merge_link, do_absorb, note_reoccurrence, append_reoccurrence, add_addendum, is_reoccurrence,
  logged_as, merge_branch,
}
use engraphy.Core.Dedup.Write.{
  Flags, stripped, insert_branch, pending_branch, merge_band_branch, for_log, run_band, write_logs,
  locked_core,
}
use engraphy.Core.Dedup.Moves.{
  Keeps-attach_links, Keeps-link_if_ruled, Keeps-candidate_rows, Keeps-resolve_canonical,
}

-- The row is in the table.
abbrev pub Among : {A : Type 0} → A → List A → Type 0
Among x [] = ⊥
Among x (y ∷ ys) = (x ≡ y) ⊎ Among x ys

Among-last : {A : Type 0} (x : A) (xs : List A) → Among x (xs ++ x ∷ [])
Among-last x [] = inl refl
Among-last x (y ∷ ys) = inr (Among-last x ys)

-- The node that the session sees under the id, and whether the body is new to its cluster.
abbrev pub Judged : Env → Session → Incoming → Db → ℕ → Bool → Type 0
Judged env s inc db id novel =
    (c : Node) × (select_node s id db ≡ some c)
    × (is_novel env.unicode inc.body (corpus_of s c db) ≡ novel)

-- The node has what the caller sent, and is active and the caller's own.
abbrev pub Stores : Session → Incoming → Node → Type 0
Stores s inc n =
    (n.title ≡ inc.title)
    × (n.body ≡ inc.body)
    × (n.node_type ≡ inc.node_type)
    × (n.scope ≡ inc.scope)
    × (n.attrs ≡ inc.attrs)
    × (n.embedding ≡ inc.embedding)
    × (n.extra_search ≡ inc.extra_search)
    × (n.source_client ≡ inc.source_client)
    × (n.source_session ≡ inc.source_session)
    × (n.space ≡ s.space)
    × (n.author ≡ s.principal)
    × (n.status ≡ active)

-- An envelope shows the node.
abbrev pub Shows : NodeView → Node → Type 0
Shows v n =
    (v.id ≡ n.id)
    × (v.title ≡ n.title)
    × (v.body ≡ n.body)
    × (v.node_type ≡ n.node_type)
    × (v.scope ≡ n.scope)
    × (v.status ≡ n.status)

-- The node that an envelope shows is in the table.
abbrev pub StoredAs : Session → Incoming → NodeView → List Node → Type 0
StoredAs s inc v nodes = (n : Node) × Stores s inc n × Shows v n × Among n nodes

-- The payload has what the caller sent.
abbrev pub Parks : Incoming → List Candidate → Payload → Type 0
Parks inc rows p =
    (p.title ≡ inc.title)
    × (p.body ≡ inc.body)
    × (p.node_type ≡ inc.node_type)
    × (p.scope ≡ inc.scope)
    × (p.attrs ≡ inc.attrs)
    × (p.embedding ≡ inc.embedding)
    × (p.extra_search ≡ inc.extra_search)
    × (p.source_client ≡ inc.source_client)
    × (p.source_session ≡ inc.source_session)
    × (p.links ≡ inc.links)
    × (p.candidates ≡ rows)

-- What an envelope promises of the tables after it, `nodes` and `pending`, for a write on `db`.
abbrev pub Accounted :
    Env → Session → Incoming → Db → Envelope → List Node → List PendingRow → Type 0
Accounted env s inc db (inserted v) nodes pending = StoredAs s inc v nodes
Accounted env s inc db (merged_linked v id sim added) nodes pending =
    StoredAs s inc v nodes × Judged env s inc db id true
Accounted env s inc db (merged v sim added counts) nodes pending = Judged env s inc db v.id false
Accounted env s inc db (needs_confirmation id expires rows) nodes pending =
    (p : PendingRow) × Parks inc rows p.payload
    × (p.id ≡ id)
    × (p.author ≡ s.principal)
    × (p.expires_at ≡ expires)
    × (expires ≡ db.now + 86400000000)
    × Among p pending
Accounted env s inc db (review_queued title body row) nodes pending =
    (title ≡ inc.title) × (body ≡ inc.body)
Accounted env s inc db (merged_silently added) nodes pending =
    (id : ℕ) × Judged env s inc db id false
Accounted env s inc db merged_linked_silently nodes pending =
    (v : NodeView) × (id : ℕ) × StoredAs s inc v nodes × Judged env s inc db id true

select_node-id :
    (s : Session) (id : ℕ) (db : Db) (c : Node) → select_node s id db ≡ some c → c.id ≡ id
unfolding select_node
select_node-id s id db c h = go db.nodes h
  where
    go : (ns : List Node) → find_first (λ n. n.id == id && visible s db n) ns ≡ some c → c.id ≡ id
    go [] h = ground arith
    go (n ∷ ns) h = ground (arith, go ns, ==-eq n.id id)

-- An edge changes neither table.
nodes-add_edge : (F : List Node → Type 0) (e : Edge) (t : Db) → F t.nodes → F (add_edge e t).nodes
unfolding add_edge
nodes-add_edge F e t h = go (has_edge e.src e.dst e.edge_type t)
  where
    go : (b : Bool) → F (if b then t else record t { edges = t.edges ++ e ∷ [] }).nodes
    go true = h
    go false = h

module _ (env : Env) (s : Session) (inc : Incoming) (db : Db) where
  Leads-do_insert : Leads (λ t. t ≡ db) (do_insert env s inc) (λ v t. StoredAs s inc v t.nodes)
  unfolding do_insert insert_node append_node new_node view_of
  Leads-do_insert =
      let n = new_node env s inc db in
      Leads-gets (new_node env s inc) _ (
        Leads-bind
          (Leads-after (Keeps-gets _) (λ e.
            Leads-after (Keeps-unless_error e)
              (λ _. Leads-modify {Q = λ _ t. Among n t.nodes} _ (λ t h. Among-last n t.nodes))))
          (λ _. Leads-pure _ (λ t h. (
            n,
            (refl, refl, refl, refl, refl, refl, refl, refl, refl, refl, refl, refl),
            (refl, refl, refl, refl, refl, refl),
            h,
          ))))

  Leads-do_merge_link :
      (c : Node) (sim : ℤ)
      → select_node s c.id db ≡ some c
      → is_novel env.unicode inc.body (corpus_of s c db) ≡ true
      → Leads
          (λ t. t ≡ db)
          (do_merge_link env s c inc sim)
          (λ e t. Accounted env s inc db e t.nodes t.pending)
  unfolding do_merge_link
  Leads-do_merge_link c sim found novel = Leads-bind Leads-do_insert (λ v.
      let F : List Node → Type 0 = λ ns. StoredAs s inc v ns in
      Leads-after (Keeps-attach_links (nodes-add_edge F) s _ _) (λ counts.
        Leads-after (Keeps-link_if_ruled (nodes-add_edge F) _ _ _ _ _ _)
          (λ added. Leads-pure _ (λ t h. (h, (c, found, novel))))))

  Leads-append_reoccurrence :
      (c : Node)
      → Leads (λ t. t ≡ db) (append_reoccurrence env s c inc) (λ shown t. shown.id ≡ c.id)
  unfolding append_reoccurrence add_addendum
  Leads-append_reoccurrence c =
      Leads-gets (λ t. t.now) _ (Leads-bind (Leads-any _) (λ _. Leads-pure _ (λ t h. refl)))

  Leads-note_reoccurrence :
      (c : Node) → Leads (λ t. t ≡ db) (note_reoccurrence env s c inc) (λ shown t. shown.id ≡ c.id)
  unfolding note_reoccurrence
  Leads-note_reoccurrence c =
      Leads-if (is_reoccurrence c inc) _ _ (λ _. Leads-append_reoccurrence c)
        (λ _. Leads-pure c (λ t h. refl))

  pub Leads-insert_branch :
      Leads
        (λ t. t ≡ db)
        (insert_branch env s inc)
        (λ (id, band, e) t. Accounted env s inc db e t.nodes t.pending)
  unfolding insert_branch
  Leads-insert_branch = Leads-bind Leads-do_insert (λ v.
      let F : List Node → Type 0 = λ ns. StoredAs s inc v ns in
      Leads-after (Keeps-attach_links (nodes-add_edge F) s _ _) (λ counts. Leads-pure _ (λ t h. h)))

  pub Leads-do_pending :
      (rows : List (ℕ × ℕ))
      → Leads
          (λ t. t ≡ db)
          (do_pending env s inc rows)
          (λ e t. Accounted env s inc db e t.nodes t.pending)
  unfolding do_pending park payload_of
  Leads-do_pending rows = Leads-after (Keeps-candidate_rows env s rows) (λ rs.
      let P : List PendingRow → Type 0 = λ ps.
        Accounted env s inc db (needs_confirmation db.next_id (db.now + 86400000000) rs) [] ps in
      Leads-gets (λ t. t.next_id) _
        (Leads-gets (λ t. t.now) _
          (Leads-bind
            (Leads-modify {Q = λ _ t. P t.pending} _ (λ t h.
              subst (λ x. P (park s (payload_of inc rs) x).pending) (sym h)
                (
                  _,
                  (refl, refl, refl, refl, refl, refl, refl, refl, refl, refl, refl),
                  refl,
                  refl,
                  refl,
                  refl,
                  Among-last _ db.pending,
                )))
            (λ _. Leads-pure _ (λ t h. h)))))

  Leads-do_absorb :
      (c : Node) (sim : ℤ)
      → select_node s c.id db ≡ some c
      → is_novel env.unicode inc.body (corpus_of s c db) ≡ false
      → Leads
          (λ t. t ≡ db)
          (do_absorb env s c inc sim)
          (λ e t. (Accounted env s inc db e t.nodes t.pending))
  unfolding do_absorb view_of
  Leads-do_absorb c sim found known = Leads-bind (Leads-note_reoccurrence c) (λ shown.
      Leads-after (Keeps-attach_links (λ e t h. h) s _ _) (λ counts.
        Leads-pure _ (λ t e. (c, subst (λ i. select_node s i db ≡ some c) (sym e) found, known))))

  Accounted-logged_as :
      (id : ℕ) (e : Envelope) (nodes : List Node) (pending : List PendingRow)
      → Accounted env s inc db e nodes pending
      → Accounted env s inc db (logged_as id e).2 nodes pending
  unfolding logged_as
  Accounted-logged_as id (inserted v) nodes pending h = h
  Accounted-logged_as id (merged v sim added counts) nodes pending h = h
  Accounted-logged_as id (merged_linked v c sim added) nodes pending h = h
  Accounted-logged_as id (needs_confirmation i expires rows) nodes pending h = h
  Accounted-logged_as id (review_queued title body row) nodes pending h = h
  Accounted-logged_as id (merged_silently added) nodes pending h = h
  Accounted-logged_as id merged_linked_silently nodes pending h = h

  pub Leads-merge_branch :
      (id : ℕ) (sim : ℤ)
      → Leads
          (λ t. t ≡ db)
          (merge_branch env s id inc sim)
          (λ (node, band, e) t. Accounted env s inc db e t.nodes t.pending)
  unfolding merge_branch
  Leads-merge_branch id sim = Leads-gets (select_node s id) _ (
      Leads-some _ _ (λ c found.
        let here : select_node s c.id db ≡ some c =
          subst (λ i. select_node s i db ≡ some c) (sym (select_node-id s id db c found)) found in
        Leads-gets (corpus_of s c) _ (
          Leads-bind (Leads-if _ _ _ (Leads-do_merge_link c sim here) (Leads-do_absorb c sim here))
            (λ e. Leads-pure _ (λ t h. Accounted-logged_as id e t.nodes t.pending h)))))
