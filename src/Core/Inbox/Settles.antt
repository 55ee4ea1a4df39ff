-- ===== src/Core/Inbox/Settles.antt =====
-- engraphy/core/inbox.py: which items promote and discard accept, and what they do to them.
use mathlib.Core.Path.{subst}
use engraphy.Base.{
  ℕ, ◌≤◌, String, ◌≡◌, refl, sym, ◌∙◌, ap, Bool, true, false, ◌&&◌, Option, some, List, [], ◌∷◌,
  map, ℤ, ◌==◌, string_eq, nat_eq, if◌then◌else◌, Pairwise, arith, Bool-cases, inl, inr, In,
  In-find_first, In-same, ==-eq,
}
use engraphy.Core.Tx.{pure, modify}
use engraphy.Core.Tx.Leads.{
  Leads, Returns, Leads-pure, Leads-bind, Leads-gets, Leads-some, Leads-require, Leads-guard,
  Leads-modify, Leads-if, Leads-kept, Leads-from,
}
use engraphy.Core.Store.{
  Db, Session, InboxRow, InboxStatus, pending, promoted, discarded, inbox_status_eq,
  readable_scopes, writable_scopes,
}
use engraphy.Core.Metrics.Counted.{Leads-counted}
use engraphy.Core.Dedup.Bands.{BandThresholds}
use engraphy.Core.Dedup.Envelope.{Env, Incoming, Reply}
use engraphy.Core.Dedup.Counted.{outcome_of}
use engraphy.Core.Inbox.{
  in_reach, inbox_visible, select_item, load_actionable, updatable, with_status, set_status,
  promote, discard,
}
use engraphy.Core.Inbox.Asides.{Beside, Keeps-write_counted}

-- The primary key of the inbox.
abbrev pub UniqueItems : List InboxRow → Type 0
UniqueItems = Pairwise (λ a b. ¬ (a.id ≡ b.id))

-- The session sees the item, may write its scope, and nobody has settled it.
pub record Actionable (s : Session) (id : ℕ) (db : Db) (r : InboxRow) : Type 0 where
  pub found : select_item s id db ≡ some r
  pub writable : in_reach (writable_scopes s db) r.scope ≡ true
  pub waiting : (r.status == pending) ≡ true

-- The items, the one with the id settled.
abbrev pub settle : ℕ → InboxStatus → List InboxRow → List InboxRow
settle id status = map (λ r. if r.id == id then with_status status r else r)

Leads-load_actionable :
    (s : Session) (id : ℕ) (db : Db)
    → Leads
        (λ t. t ≡ db)
        (load_actionable s id)
        (λ u t. ((r : InboxRow) × Actionable s id db r) × (t ≡ db))
unfolding load_actionable
Leads-load_actionable s id db = Leads-gets _ _ (
    Leads-some _ _ (λ r found. Leads-gets _ _ (
      Leads-require _ _ _ (λ writable. Leads-guard _ _ (λ waiting t e.
        ((r, record { found = found; writable = writable; waiting = waiting }), e))))))

map-cong :
    (f g : InboxRow → InboxRow) (xs : List InboxRow)
    → ((r : InboxRow) → In r xs → f r ≡ g r)
    → map f xs ≡ map g xs
map-cong f g [] h = refl
map-cong f g (x ∷ xs) h = rw (h x (inl refl), map-cong f g xs (λ r m. h r (inr m))) refl

module _ (s : Session) (id : ℕ) (status : InboxStatus) (db : Db) (r : InboxRow) where
  -- The UPDATE finds the item and no other one.
  updatable-eq :
      UniqueItems db.inbox
      → Actionable s id db r
      → (x : InboxRow) → In x db.inbox
      → updatable s id db x ≡ (x.id == id)
  unfolding updatable select_item
  updatable-eq unique a x m =
      let (there, this) =
        In-find_first (λ r. r.id == id && inbox_visible s db r) r db.inbox a.found in
      elim (Bool-cases (x.id == id)) [
        | inl here ↦
            let e : x ≡ r =
              In-same (λ a b. ¬ (a.id ≡ b.id)) x r db.inbox (λ a b d p. d (sym p)) unique m there
                (λ d. d (==-eq x.id id here ∙ sym (==-eq r.id id (ground (arith, this))))) in
            subst (λ z. updatable s id db z ≡ (z.id == id)) (sym e)
              (ground (arith, this, a.writable))
        | inr other ↦ ground (arith, other)
      ]

  set_status-settle :
      UniqueItems db.inbox
      → Actionable s id db r
      → set_status s id status db ≡ record db { inbox = settle id status db.inbox }
  unfolding set_status
  set_status-settle unique a =
      let only = updatable-eq unique a in
      let same =
        map-cong (λ x. if updatable s id db x then with_status status x else x)
          (λ x. if x.id == id then with_status status x else x) db.inbox
          (λ x m. ap (λ (b : Bool). if b then with_status status x else x) (only x m)) in
      ap (λ (rows : List InboxRow). record db { inbox = rows }) same

-- The readable and the writable scopes, and so the UPDATE, are told by three tables.
set_status-Beside :
    (s : Session) (id : ℕ) (status : InboxStatus) (db t : Db)
    → Beside db t
    → (set_status s id status t).inbox ≡ (set_status s id status db).inbox
unfolding set_status updatable readable_scopes writable_scopes
set_status-Beside s id status db t (inbox, scopes, grants, le) = rw (inbox, scopes, grants) refl

-- What a promotion leaves in the inbox.
abbrev pub Promoted : Session → ℕ → Db → Reply → Db → Type 0
Promoted s id db r after =
    ((row : InboxRow) × Actionable s id db row)
    × (after.inbox ≡ (
        if outcome_of r.envelope == "needs_confirmation"
        then db.inbox
        else settle id promoted db.inbox))
    × (db.next_id ≤ after.next_id)

finish :
    (s : Session) (id : ℕ) (db : Db) (row : InboxRow) (r : Reply)
    → UniqueItems db.inbox
    → Actionable s id db row
    → Leads
        (Beside db)
        (if outcome_of r.envelope == "needs_confirmation"
          then pure tt
          else modify (set_status s id promoted))
        (λ u after. Promoted s id db r after)
unfolding set_status
finish s id db row r unique a =
    Leads-if (outcome_of r.envelope == "needs_confirmation") _ _
      (λ waits. Leads-pure tt (λ t (inbox, scopes, grants, le). ((row, a), rw waits inbox, le)))
      (λ settles. Leads-modify _ (λ t (inbox, scopes, grants, le). (
        (row, a),
        rw settles (
            set_status-Beside s id promoted db t (inbox, scopes, grants, le)
            ∙ ap (λ (d : Db). d.inbox) (set_status-settle s id promoted db row unique a)),
        le,
      )))

Leads-promote :
    (env : Env) (s : Session) (profile : String) (t : Option BandThresholds) (floor : Option ℤ)
    (id : ℕ) (inc : Incoming) (db : Db)
    → UniqueItems db.inbox
    → Leads (λ x. x ≡ db) (promote env s profile t floor id inc) (Promoted s id db)
unfolding promote
Leads-promote env s profile t floor id inc db unique =
    Leads-counted s _ (λ r x after h. h)
      (Leads-bind (Leads-load_actionable s id db) (λ u. Leads-from (λ x ((row, a), e).
        Leads-bind
          (Leads-kept x (subst (Beside db) (sym e) (refl, refl, refl, omega arith))
            (Keeps-write_counted db env s profile t floor false "write" inc))
          (λ r. Leads-bind (finish s id db row r unique a) (λ u. Leads-pure r (λ y h. h))))))

-- A promotion that commits was of an item that the session sees, in a scope that it may write, and
-- that was pending; if its write was parked the inbox is as it was, and else exactly that item is
-- marked promoted, if no two items have one id.
pub promote-Promoted :
    (env : Env) (s : Session) (profile : String) (t : Option BandThresholds) (floor : Option ℤ)
    (id : ℕ) (inc : Incoming) (db : Db)
    → UniqueItems db.inbox
    → Returns (Promoted s id db) (promote env s profile t floor id inc db)
promote-Promoted env s profile t floor id inc db unique =
    (Leads-promote env s profile t floor id inc db unique).at db refl

-- What a discard that commits leaves.
abbrev pub Discarded : Session → ℕ → Db → Unit {0} → Db → Type 0
Discarded s id db u after =
    ((row : InboxRow) × Actionable s id db row)
    × (after ≡ record db { inbox = settle id discarded db.inbox })

pub Leads-discard :
    (s : Session) (id : ℕ) (db : Db)
    → UniqueItems db.inbox
    → Leads (λ x. x ≡ db) (discard s id) (Discarded s id db)
unfolding discard
Leads-discard s id db unique = Leads-bind (Leads-load_actionable s id db) (λ u.
    Leads-modify _ (λ t ((row, a), e). (
      (row, a),
      ap (set_status s id discarded) e ∙ set_status-settle s id discarded db row unique a,
    )))
