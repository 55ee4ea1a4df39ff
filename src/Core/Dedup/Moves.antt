-- ===== src/Core/Dedup/Moves.antt =====
-- What keeps a predicate on the tables through the branches of a write.
use engraphy.Base.{ℕ, zero, suc, String, Option, none, some, List, [], ◌∷◌, ℤ}
use engraphy.Core.Json.{Json}
use engraphy.Core.Tx.{pure}
use engraphy.Core.Tx.Keeps.{
  Keeps, Keeps-pure, Keeps-raise, Keeps-gets, Keeps-or_raise, Keeps-require, Keeps-modify, Keeps-if,
  Keeps-bind,
}
use engraphy.Core.Store.{Db, Node, Edge, Session, Link, Payload, append_node, add_edge, update_at}
use engraphy.Core.Store.Moves.{Keeps-insert_node, Keeps-insert_edge, Keeps-update_node}
use engraphy.Core.Dedup.Bands.{
  BandThresholds, Band, resolve_config, config_float, resolve_bands, resolve_floor,
}
use engraphy.Core.Dedup.Links.{attach_links, attach_link, validate_links_shape}
use engraphy.Core.Dedup.Envelope.{Env, Incoming}
use engraphy.Core.Dedup.Candidates.{candidate_rows, resolve_canonical, chase, next_canonical}
use engraphy.Core.Dedup.Branches.{
  do_insert, do_review_queue, do_pending, park, link_if_ruled, do_merge_link, add_addendum,
  do_absorb, note_reoccurrence, append_reoccurrence, merge_branch,
}
use engraphy.Core.Dedup.Write.{Flags, insert_branch, pending_branch, merge_band_branch, run_band}

-- What a branch does to the tables keeps `P`.
pub record Closed (P : Db → Type 0) : Type 0 where
  pub inserts : (n : Node) (s : Db) → P s → P (append_node n s)
  pub relates : (e : Edge) (s : Db) → P s → P (add_edge e s)
  pub parks : (t : Session) (p : Payload) (s : Db) → P s → P (park t p s)
  pub appends :
      (id : ℕ) (a : Json) (s : Db)
      → P s
      → P (record s { nodes = update_at id (add_addendum a) s.nodes })

module _ {P : Db → Type 0} where
  pub Keeps-candidate_rows :
      (env : Env) (s : Session) (rows : List (ℕ × ℕ)) → Keeps P (candidate_rows env s rows)
  unfolding candidate_rows
  Keeps-candidate_rows env s [] = Keeps-pure _
  Keeps-candidate_rows env s ((id, d) ∷ rows) = Keeps-bind (Keeps-gets _) (λ row.
      Keeps-bind (Keeps-or_raise _ _)
        (λ n. Keeps-bind (Keeps-candidate_rows env s rows) (λ rest. Keeps-pure _)))

  Keeps-chase : (s : Session) (hops id : ℕ) → Keeps P (chase s hops id)
  unfolding chase
  Keeps-chase s zero id = Keeps-raise _
  Keeps-chase s (suc hops) id =
      Keeps-bind (Keeps-gets _)
        (λ row. Keeps-bind (Keeps-or_raise _ _) (λ n. next (next_canonical n) (Keeps-chase s hops)))
    where
      next :
          (o : Option ℕ)
          → ((m : ℕ) → Keeps P (chase s hops m))
          → Keeps P (elim o [ none ↦ pure id | some m ↦ chase s hops m ])
      next none h = Keeps-pure _
      next (some m) h = h m

  pub Keeps-resolve_canonical : (s : Session) (id : ℕ) → Keeps P (resolve_canonical s id)
  unfolding resolve_canonical
  Keeps-resolve_canonical s id = Keeps-chase s 10 id

  pub Keeps-validate_links_shape : (links : List Link) → Keeps P (validate_links_shape links)
  unfolding validate_links_shape
  Keeps-validate_links_shape [] = Keeps-pure _
  Keeps-validate_links_shape (l ∷ links) =
      Keeps-bind (Keeps-require _ _) (λ _. Keeps-validate_links_shape links)

  pub Keeps-config_float :
      (s : Session) (key : String) (default : ℤ) → Keeps P (config_float s key default)
  unfolding config_float
  Keeps-config_float s key default = Keeps-bind (Keeps-gets _) (λ v. Keeps-or_raise _ _)

  Keeps-resolve_bands :
      (s : Session) (profile : String) (given : Option BandThresholds)
      → Keeps P (resolve_bands s profile given)
  unfolding resolve_bands
  Keeps-resolve_bands s profile (some t) = Keeps-pure _
  Keeps-resolve_bands s profile none = Keeps-bind (Keeps-config_float _ _ _) (λ h.
      Keeps-bind (Keeps-config_float _ _ _)
        (λ l. Keeps-bind (Keeps-require _ _) (λ _. Keeps-pure _)))

  Keeps-resolve_floor :
      (s : Session) (profile : String) (given : Option ℤ) → Keeps P (resolve_floor s profile given)
  unfolding resolve_floor
  Keeps-resolve_floor s profile (some f) = Keeps-pure _
  Keeps-resolve_floor s profile none =
      Keeps-bind (Keeps-config_float _ _ _)
        (λ f. Keeps-bind (Keeps-require _ _) (λ _. Keeps-pure _))

  pub Keeps-resolve_config :
      (s : Session) (profile : String) (t : Option BandThresholds) (f : Option ℤ)
      → Keeps P (resolve_config s profile t f)
  unfolding resolve_config
  Keeps-resolve_config s profile t f =
      Keeps-bind (Keeps-resolve_bands s profile t)
        (λ b. Keeps-bind (Keeps-resolve_floor s profile f) (λ l. Keeps-pure _))

  module _ (relates : (e : Edge) (s : Db) → P s → P (add_edge e s)) where
    pub Keeps-attach_links :
        (s : Session) (node : ℕ) (links : List Link) → Keeps P (attach_links s node links)
    unfolding attach_links attach_link
    Keeps-attach_links s node [] = Keeps-pure _
    Keeps-attach_links s node (l ∷ links) =
        Keeps-bind
          (Keeps-bind (Keeps-gets _)
            (λ row. Keeps-bind (Keeps-require _ _) (λ _. Keeps-insert_edge relates _ _ _ _)))
          (λ added. Keeps-bind (Keeps-attach_links s node links) (λ counts. Keeps-pure _))

    pub Keeps-link_if_ruled :
        (s : Session) (edge_type : String) (src : ℕ) (src_type : String) (dst : ℕ)
        (dst_type : String)
        → Keeps P (link_if_ruled s edge_type src src_type dst dst_type)
    unfolding link_if_ruled
    Keeps-link_if_ruled s edge_type src src_type dst dst_type = Keeps-bind (Keeps-gets _) (λ ruled.
        Keeps-if ruled _ _ (Keeps-bind (Keeps-insert_edge relates _ _ _ _) (λ _. Keeps-pure _))
          (Keeps-pure _))

  module _ (c : Closed P) where
    pub Keeps-do_insert : (env : Env) (s : Session) (inc : Incoming) → Keeps P (do_insert env s inc)
    unfolding do_insert
    Keeps-do_insert env s inc =
        Keeps-bind (Keeps-gets _)
          (λ n. Keeps-bind (Keeps-insert_node c.inserts _ _ n) (λ _. Keeps-pure _))

    Keeps-do_review_queue :
        (env : Env) (s : Session) (inc : Incoming) (rows : List (ℕ × ℕ))
        → Keeps P (do_review_queue env s inc rows)
    unfolding do_review_queue
    Keeps-do_review_queue env s inc rows =
        Keeps-bind (Keeps-candidate_rows env s rows) (λ rs. Keeps-or_raise _ _)

    pub Keeps-do_pending :
        (env : Env) (s : Session) (inc : Incoming) (rows : List (ℕ × ℕ))
        → Keeps P (do_pending env s inc rows)
    unfolding do_pending
    Keeps-do_pending env s inc rows = Keeps-bind (Keeps-candidate_rows env s rows) (λ rs.
        Keeps-bind (Keeps-gets _) (λ id.
          Keeps-bind (Keeps-gets _)
            (λ now. Keeps-bind (Keeps-modify _ (c.parks s _)) (λ _. Keeps-pure _))))

    pub Keeps-do_merge_link :
        (env : Env) (s : Session) (n : Node) (inc : Incoming) (sim : ℤ)
        → Keeps P (do_merge_link env s n inc sim)
    unfolding do_merge_link
    Keeps-do_merge_link env s n inc sim = Keeps-bind (Keeps-do_insert env s inc) (λ member.
        Keeps-bind (Keeps-attach_links c.relates s _ _) (λ counts.
          Keeps-bind (Keeps-link_if_ruled c.relates _ _ _ _ _ _) (λ added. Keeps-pure _)))

    Keeps-note_reoccurrence :
        (env : Env) (s : Session) (n : Node) (inc : Incoming)
        → Keeps P (note_reoccurrence env s n inc)
    unfolding note_reoccurrence append_reoccurrence
    Keeps-note_reoccurrence env s n inc =
        Keeps-if _ _ _
          (Keeps-bind (Keeps-gets _)
            (λ now. Keeps-bind (Keeps-update_node _ s _ _ (c.appends n.id _)) (λ _. Keeps-pure _)))
          (Keeps-pure _)

    pub Keeps-do_absorb :
        (env : Env) (s : Session) (n : Node) (inc : Incoming) (sim : ℤ)
        → Keeps P (do_absorb env s n inc sim)
    unfolding do_absorb
    Keeps-do_absorb env s n inc sim =
        Keeps-bind (Keeps-note_reoccurrence env s n inc)
          (λ shown. Keeps-bind (Keeps-attach_links c.relates s _ _) (λ counts. Keeps-pure _))

    pub Keeps-merge_branch :
        (env : Env) (s : Session) (id : ℕ) (inc : Incoming) (sim : ℤ)
        → Keeps P (merge_branch env s id inc sim)
    unfolding merge_branch
    Keeps-merge_branch env s id inc sim = Keeps-bind (Keeps-gets _) (λ row.
        Keeps-bind (Keeps-or_raise _ _) (λ n. Keeps-bind (Keeps-gets _) (λ corpus.
          Keeps-bind
            (Keeps-if _ _ _ (Keeps-do_merge_link env s n inc sim) (Keeps-do_absorb env s n inc sim))
            (λ e. Keeps-pure _))))

    Keeps-insert_branch :
        (env : Env) (s : Session) (inc : Incoming) → Keeps P (insert_branch env s inc)
    unfolding insert_branch
    Keeps-insert_branch env s inc =
        Keeps-bind (Keeps-do_insert env s inc)
          (λ v. Keeps-bind (Keeps-attach_links c.relates s _ _) (λ counts. Keeps-pure _))

    pub Keeps-run_band :
        (env : Env) (s : Session) (inc : Incoming) (f : Flags) (b : Band) (rows : List (ℕ × ℕ))
        → Keeps P (run_band env s inc f b rows)
    unfolding run_band pending_branch merge_band_branch
    Keeps-run_band env s inc f Band.merge rows = Keeps-bind (Keeps-or_raise _ _) (λ id.
        Keeps-bind (Keeps-resolve_canonical s id)
          (λ canonical. Keeps-bind (Keeps-merge_branch env s canonical inc _) (λ o. Keeps-pure _)))
    Keeps-run_band env s inc f Band.pending rows = Keeps-if _ _ _ (Keeps-insert_branch env s inc) (
        Keeps-bind
          (Keeps-if _ _ _ (Keeps-do_review_queue env s inc rows) (Keeps-do_pending env s inc rows))
          (λ e. Keeps-pure _))
    Keeps-run_band env s inc f Band.insert rows = Keeps-insert_branch env s inc
