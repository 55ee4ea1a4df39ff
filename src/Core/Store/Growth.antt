-- ===== src/Core/Store/Growth.antt =====
-- What the tables keep from one state to a later one: rows stay, in their order, and a node's
-- content stays except for the merge history in attrs.addenda.
use engraphy.Base.{
  ℕ, ◌≡◌, refl, Bool, true, false, List, [], ◌∷◌, ◌++◌, map, if◌then◌else◌, ◌==◌, nat_eq, string_eq,
  ==-eq,
}
use engraphy.Core.Json.{without}
use engraphy.Core.Store.{
  Db, Node, Edge, PendingRow, DedupRow, AuditRow, MetricRow, is_addenda, append_node, add_edge,
  has_edge, update_at,
}

-- Each row of the first list is related to the row of the second at its place.
abbrev pub Grows {ℓ} : {A : Type ℓ} → (A → A → Type 0) → List A → List A → Type 0
Grows R [] ys = Unit
Grows R (x ∷ xs) [] = ⊥
Grows R (x ∷ xs) (y ∷ ys) = R x y × Grows R xs ys

-- The two nodes are one memory, up to its status and its merge history.
pub record SameMemory (x y : Node) : Type 0 where
  pub id : y.id ≡ x.id
  pub space : y.space ≡ x.space
  pub node_type : y.node_type ≡ x.node_type
  pub scope : y.scope ≡ x.scope
  pub title : y.title ≡ x.title
  pub body : y.body ≡ x.body
  pub attrs : without is_addenda y.attrs ≡ without is_addenda x.attrs
  pub embedding : y.embedding ≡ x.embedding
  pub extra_search : y.extra_search ≡ x.extra_search
  pub author : y.author ≡ x.author

-- It also keeps its status.
abbrev pub Kept : Node → Node → Type 0
Kept x y = SameMemory x y × y.status ≡ x.status

pub SameMemory-refl : (x : Node) → SameMemory x x
SameMemory-refl x = record {
  id = refl;
  space = refl;
  node_type = refl;
  scope = refl;
  title = refl;
  body = refl;
  attrs = refl;
  embedding = refl;
  extra_search = refl;
  author = refl;
}

module _ {ℓ} {A : Type ℓ} (R : A → A → Type 0) where
  pub Grows-refl : ((x : A) → R x x) → (xs : List A) → Grows R xs xs
  Grows-refl r [] = tt
  Grows-refl r (x ∷ xs) = (r x, Grows-refl r xs)

  pub Grows-append : (xs ys zs : List A) → Grows R xs ys → Grows R xs (ys ++ zs)
  Grows-append [] ys zs h = tt
  Grows-append (x ∷ xs) [] zs h = elim h [ ]
  Grows-append (x ∷ xs) (y ∷ ys) zs (h, hs) = (h, Grows-append xs ys zs hs)

  pub Grows-update :
      (xs ys : List A) (f : A → A)
      → ((x y : A) → R x y → R x (f y))
      → Grows R xs ys
      → Grows R xs (map f ys)
  Grows-update [] ys f r h = tt
  Grows-update (x ∷ xs) [] f r h = elim h [ ]
  Grows-update (x ∷ xs) (y ∷ ys) f r (h, hs) = (r x y h, Grows-update xs ys f r hs)

-- The tables of a later state against those of an earlier one.
pub record Grown (R : Node → Node → Type 0) (origin s : Db) : Type 0 where
  pub nodes : Grows R origin.nodes s.nodes
  pub edges : Grows (λ e f. f ≡ e) origin.edges s.edges
  pub dedup_log : Grows (λ e f. f ≡ e) origin.dedup_log s.dedup_log
  pub audit_log : Grows (λ e f. f ≡ e) origin.audit_log s.audit_log
  pub scopes : s.scopes ≡ origin.scopes
  pub types : s.types ≡ origin.types
  pub config : s.config ≡ origin.config

module _ {R : Node → Node → Type 0} {origin : Db} where
  pub Grown-refl : ((x : Node) → R x x) → Grown R origin origin
  Grown-refl r = record {
    nodes = Grows-refl _ r _;
    edges = Grows-refl _ (λ _. refl) _;
    dedup_log = Grows-refl _ (λ _. refl) _;
    audit_log = Grows-refl _ (λ _. refl) _;
    scopes = refl;
    types = refl;
    config = refl;
  }

  pub Grown-append_node : (n : Node) (s : Db) → Grown R origin s → Grown R origin (append_node n s)
  unfolding append_node
  Grown-append_node n s g = record {
    nodes = Grows-append _ _ _ _ g.nodes;
    edges = g.edges;
    dedup_log = g.dedup_log;
    audit_log = g.audit_log;
    scopes = g.scopes;
    types = g.types;
    config = g.config;
  }

  pub Grown-add_edge : (e : Edge) (s : Db) → Grown R origin s → Grown R origin (add_edge e s)
  unfolding add_edge
  Grown-add_edge e s g = added (has_edge e.src e.dst e.edge_type s)
    where
      added : (b : Bool) → Grown R origin (if b then s else record s { edges = s.edges ++ e ∷ [] })
      added true = g
      added false = record {
        nodes = g.nodes;
        edges = Grows-append _ _ _ _ g.edges;
        dedup_log = g.dedup_log;
        audit_log = g.audit_log;
        scopes = g.scopes;
        types = g.types;
        config = g.config;
      }

  pub Grown-log_dedup :
      (r : DedupRow) (s : Db)
      → Grown R origin s
      → Grown R origin (record s { dedup_log = s.dedup_log ++ r ∷ [] })
  Grown-log_dedup r s g = record {
    nodes = g.nodes;
    edges = g.edges;
    dedup_log = Grows-append _ _ _ _ g.dedup_log;
    audit_log = g.audit_log;
    scopes = g.scopes;
    types = g.types;
    config = g.config;
  }

  pub Grown-log_audit :
      (r : AuditRow) (s : Db)
      → Grown R origin s
      → Grown R origin (record s { audit_log = s.audit_log ++ r ∷ [] })
  Grown-log_audit r s g = record {
    nodes = g.nodes;
    edges = g.edges;
    dedup_log = g.dedup_log;
    audit_log = Grows-append _ _ _ _ g.audit_log;
    scopes = g.scopes;
    types = g.types;
    config = g.config;
  }

  -- The tables that `Grown` does not read may change.
  pub Grown-other :
      (pending : List PendingRow) (next_id : ℕ) (s : Db)
      → Grown R origin s
      → Grown R origin (record s { pending = pending; next_id = next_id })
  Grown-other pending next_id s g = record {
    nodes = g.nodes;
    edges = g.edges;
    dedup_log = g.dedup_log;
    audit_log = g.audit_log;
    scopes = g.scopes;
    types = g.types;
    config = g.config;
  }

  pub Grown-metrics :
      (metrics : List MetricRow) (s : Db)
      → Grown R origin s
      → Grown R origin (record s { metrics = metrics })
  Grown-metrics metrics s g = record {
    nodes = g.nodes;
    edges = g.edges;
    dedup_log = g.dedup_log;
    audit_log = g.audit_log;
    scopes = g.scopes;
    types = g.types;
    config = g.config;
  }

  pub Grown-rewrite :
      (test : Node → Bool) (f : Node → Node)
      → ((x y : Node) → R x y → R x (f y))
      → (s : Db) → Grown R origin s
      → Grown R origin (record s { nodes = map (λ n. if test n then f n else n) s.nodes })
  Grown-rewrite test f r s g = record {
    nodes = Grows-update _ _ _ _ (λ x y h. at x y h (test y)) g.nodes;
    edges = g.edges;
    dedup_log = g.dedup_log;
    audit_log = g.audit_log;
    scopes = g.scopes;
    types = g.types;
    config = g.config;
  }
    where
      at : (x y : Node) → R x y → (b : Bool) → R x (if b then f y else y)
      at x y h true = r x y h
      at x y h false = h

  pub Grown-update_at :
      (id : ℕ) (f : Node → Node)
      → ((x y : Node) → y.id ≡ id → R x y → R x (f y))
      → (s : Db) → Grown R origin s
      → Grown R origin (record s { nodes = update_at id f s.nodes })
  unfolding update_at
  Grown-update_at id f r s g = record {
    nodes = Grows-update _ _ _ _ (λ x y h. at x y h (y.id == id) refl) g.nodes;
    edges = g.edges;
    dedup_log = g.dedup_log;
    audit_log = g.audit_log;
    scopes = g.scopes;
    types = g.types;
    config = g.config;
  }
    where
      at : (x y : Node) → R x y → (b : Bool) → (y.id == id) ≡ b → R x (if b then f y else y)
      at x y h true e = r x y (==-eq y.id id e) h
      at x y h false e = h
