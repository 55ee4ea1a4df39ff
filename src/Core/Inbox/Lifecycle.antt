-- ===== src/Core/Inbox/Lifecycle.antt =====
-- engraphy/core/inbox.py: the life of an item over any run of operations.
use mathlib.Core.Path.{subst}
use engraphy.Base.{
  ℕ, suc, ◌≤◌, ◌<◌, String, ◌≡◌, refl, sym, ◌∙◌, Bool, true, false, ◌&&◌, Option, List, [], ◌∷◌,
  map, ◌==◌, string_eq, nat_eq, if◌then◌else◌, All, All-map, All-mono, All-append, Pairwise-map,
  Pairwise-with, Pairwise-snoc, arith, Bool-cases, inl, inr, ◌⊎◌, In, In-find_first, In-same, ==-eq,
}
use engraphy.Core.Json.{Json}
use engraphy.Core.Tx.Leads.{Leads, Leads-pure, Leads-bind, Leads-gets, Leads-require, Leads-modify}
use engraphy.Core.Store.{Db, Session, InboxRow, InboxStatus, pending, promoted, inbox_status_eq}
use engraphy.Core.Store.Growth.{Grows, Grows-refl, Grows-append}
use engraphy.Core.Inbox.{
  inbox_visible, select_item, with_status, updatable, set_status, capture, new_item, append_item,
}
use engraphy.Core.Inbox.Settles.{UniqueItems, Actionable, settle}

-- Ids are told apart, and the next one is fresh.
abbrev pub Items : Db → Type 0
Items db = UniqueItems db.inbox × All (λ r. r.id < db.next_id) db.inbox

-- One item, before and after: all but its status stays, and once it is not pending that stays or
-- becomes `promoted`.
pub record Moved (x y : InboxRow) : Type 0 where
  pub id : y.id ≡ x.id
  pub space : y.space ≡ x.space
  pub scope : y.scope ≡ x.scope
  pub kind : y.kind ≡ x.kind
  pub payload : y.payload ≡ x.payload
  pub created_at : y.created_at ≡ x.created_at
  pub status : (y.status ≡ x.status) ⊎ (((x.status == pending) ≡ true) ⊎ (y.status ≡ promoted))

pub Moved-refl : (x : InboxRow) → Moved x x
Moved-refl x = record {
  id = refl;
  space = refl;
  scope = refl;
  kind = refl;
  payload = refl;
  created_at = refl;
  status = inl refl;
}

Moved-trans : (x y z : InboxRow) → Moved x y → Moved y z → Moved x z
Moved-trans x y z h k = record {
  id = k.id ∙ h.id;
  space = k.space ∙ h.space;
  scope = k.scope ∙ h.scope;
  kind = k.kind ∙ h.kind;
  payload = k.payload ∙ h.payload;
  created_at = k.created_at ∙ h.created_at;
  status = elim h.status [
    | inl same ↦ elim k.status [
      | inl again ↦ inl (again ∙ same)
      | inr (inl open_y) ↦ inr (inl (subst (λ st. (st == pending) ≡ true) same open_y))
      | inr (inr done) ↦ inr (inr done)
    ]
    | inr (inl open_x) ↦ inr (inl open_x)
    | inr (inr done) ↦ elim k.status [
      | inl again ↦ inr (inr (again ∙ done))
      | inr (inl open_y) ↦ absurd (ground (arith, done, open_y))
      | inr (inr twice) ↦ inr (inr twice)
    ]
  ];
}

pub Grows-trans :
    (xs ys zs : List InboxRow) → Grows Moved xs ys → Grows Moved ys zs → Grows Moved xs zs
Grows-trans [] ys zs h k = tt
Grows-trans (x ∷ xs) [] zs h k = elim h [ ]
Grows-trans (x ∷ xs) (y ∷ ys) [] h k = elim k [ ]
Grows-trans (x ∷ xs) (y ∷ ys) (z ∷ zs) (h, hs) (k, ks) =
    (Moved-trans x y z h k, Grows-trans xs ys zs hs ks)

Grows-map :
    (f : InboxRow → InboxRow) (xs : List InboxRow)
    → ((r : InboxRow) → In r xs → Moved r (f r))
    → Grows Moved xs (map f xs)
Grows-map f [] h = tt
Grows-map f (x ∷ xs) h = (h x (inl refl), Grows-map f xs (λ r m. h r (inr m)))

-- What one operation does to the inbox.
abbrev pub Moves : Db → Db → Type 0
Moves db after = Grows Moved db.inbox after.inbox × Items after

settled-id :
    (b : Bool) (status : InboxStatus) (r : InboxRow)
    → (if b then with_status status r else r).id ≡ r.id
unfolding with_status
settled-id true status r = refl
settled-id false status r = refl

module _ (s : Session) (id : ℕ) (status : InboxStatus) (db : Db) (row : InboxRow) where
  pub settle-Moved :
      UniqueItems db.inbox
      → Actionable s id db row
      → Grows Moved db.inbox (settle id status db.inbox)
  unfolding select_item with_status
  settle-Moved unique a =
      let (there, this) =
        In-find_first (λ r. r.id == id && inbox_visible s db r) row db.inbox a.found in
      Grows-map _ db.inbox (λ r m. elim (Bool-cases (r.id == id)) [
        | inl here ↦
            let e : r ≡ row =
              In-same (λ a b. ¬ (a.id ≡ b.id)) r row db.inbox (λ a b d p. d (sym p)) unique m there
                (λ d. d (==-eq r.id id here ∙ sym (==-eq row.id id (ground (arith, this))))) in
            rw here (record {
              id = refl;
              space = refl;
              scope = refl;
              kind = refl;
              payload = refl;
              created_at = refl;
              status = inr (inl (subst (λ z. (z.status == pending) ≡ true) (sym e) a.waiting));
            })
        | inr other ↦ rw other (Moved-refl r)
      ])

  pub settle-Items :
      (next_id : ℕ)
      → db.next_id ≤ next_id
      → Items db
      → UniqueItems (settle id status db.inbox)
        × All (λ r. r.id < next_id) (settle id status db.inbox)
  settle-Items next_id le (unique, fresh) = (
    Pairwise-map (λ a b. ¬ (a.id ≡ b.id)) _ db.inbox
        (Pairwise-with (λ r. Unit) db.inbox
          (λ x y p q d e.
            d (sym (settled-id (x.id == id) status x) ∙ e ∙ settled-id (y.id == id) status y))
          (All-mono db.inbox (λ r h. tt) fresh) unique),
    All-map (λ r. r.id < next_id) _ db.inbox
        (All-mono db.inbox (λ r h. rw (settled-id (r.id == id) status r) (omega (arith, h))) fresh),
  )

module _ (s : Session) (id : ℕ) (db : Db) where
  flagged : Bool → InboxRow → InboxRow
  flagged b r = if b then with_status promoted r else r

  flagged-Moved : (b : Bool) (r : InboxRow) → Moved r (flagged b r)
  unfolding flagged with_status
  flagged-Moved true r = record {
    id = refl;
    space = refl;
    scope = refl;
    kind = refl;
    payload = refl;
    created_at = refl;
    status = inr (inr refl);
  }
  flagged-Moved false r = Moved-refl r

  -- The last statement of a promotion has no guard on the status.
  pub set_status-Moves : Items db → Moves db (set_status s id promoted db)
  unfolding set_status flagged
  set_status-Moves (unique, fresh) = (
    Grows-map _ db.inbox (λ r m. flagged-Moved (updatable s id db r) r),
    (
      Pairwise-map (λ a b. ¬ (a.id ≡ b.id)) _ db.inbox
          (Pairwise-with (λ r. Unit) db.inbox
            (λ x y p q d e. d (
              sym (settled-id (updatable s id db x) promoted x)
              ∙ e
              ∙ settled-id (updatable s id db y) promoted y))
            (All-mono db.inbox (λ r h. tt) fresh) unique),
      All-map (λ r. r.id < db.next_id) _ db.inbox
          (All-mono db.inbox
            (λ r h. rw (settled-id (updatable s id db r) promoted r) (omega (arith, h))) fresh),
    ),
  )

pub Leads-capture :
    (s : Session) (kind : Option String) (payload : Json) (scope : Option String) (db : Db)
    → Items db
    → Leads (λ x. x ≡ db) (capture s kind payload scope) (λ r after. Moves db after)
unfolding capture new_item append_item
Leads-capture s kind payload scope db (unique, fresh) = Leads-gets _ _ (
    Leads-require _ _ _ (λ may. Leads-gets _ _ (
      Leads-bind
        (Leads-modify {Q = λ u after. Moves db after} _ (λ t e.
          subst (λ d. Moves db (append_item (new_item s kind payload scope db) d)) (sym e)
            (
              Grows-append Moved db.inbox db.inbox _ (Grows-refl Moved Moved-refl db.inbox),
              (
                Pairwise-snoc (λ a b. ¬ (a.id ≡ b.id)) db.inbox _ unique
                    (All-mono db.inbox (λ r h e. absurd (omega (arith, h, e))) fresh),
                All-append (λ r. r.id < suc db.next_id) db.inbox _
                    (All-mono db.inbox (λ r h. omega (arith, h)) fresh) (omega arith, tt),
              ),
            )))
        (λ u. Leads-pure _ (λ t h. h)))))
