-- ===== src/Core/Pending/Rows.antt =====
-- engraphy/core/pending.py: every row of the list can be resolved by its id.
use engraphy.Base.{
  ◌≤◌, ◌≡◌, sym, ap, true, ◌&&◌, some, List, map, ℤ, pos, negsuc, keep, take, drop, length,
  length-map, length-take, ◌==◌, string_eq, nat_eq, sort_by, arith, All, In, In-All, In-map,
  In-take, In-drop, In-sort_by, In-keep, find_first-In, In-find_first, In-same, Pairwise, ==_self,
  ==-eq,
}
use mathlib.Core.Path.{subst}
use engraphy.Core.Tx.{ok}
use engraphy.Core.Tx.Runs.{gets-ok}
use engraphy.Core.Store.{Db, Session, PendingRow}
use engraphy.Core.Dedup.Resolve.{select_pending}
use engraphy.Core.Pending.{
  Trim, PendingItem, to_item, newer, mine, clamp_page, clamp_offset, pending_list,
}

-- No two parked writes have one id.
abbrev pub UniqueRows : List PendingRow → Type 0
UniqueRows = Pairwise (λ a b. ¬ (a.id ≡ b.id))

-- The item shows the row that a resolution by its id finds.
abbrev pub IsResolvable : Trim → Session → Db → PendingItem → Type 0
IsResolvable t s db item =
    (r : PendingRow) × (select_pending s item.id db ≡ some r) × (to_item t r ≡ item)

module _ (t : Trim) (s : Session) (db : Db) (unique : UniqueRows db.pending) where
  row-IsResolvable :
      (r : PendingRow) → In r db.pending → mine s r ≡ true → IsResolvable t s db (to_item t r)
  unfolding select_pending mine to_item
  row-IsResolvable r there own =
      let p = λ (x : PendingRow). x.id == r.id && (x.space == s.space && x.author == s.principal) in
      let (b, found) = find_first-In p r db.pending there (ground (arith, ==_self r.id, own)) in
      let (stands, this) = In-find_first p b db.pending found in
      let same : b ≡ r =
        In-same (λ x y. ¬ (x.id ≡ y.id)) b r db.pending (λ x y n e. n (sym e)) unique stands there
          (λ n. n (==-eq b.id r.id (ground (arith, this)))) in
      (b, found, ap (to_item t) same)

clamp_page_bounds : (n : ℤ) → (1 ≤ clamp_page n) × (clamp_page n ≤ 100)
unfolding clamp_page
clamp_page_bounds (pos n) = (omega arith, omega arith)
clamp_page_bounds (negsuc n) = (omega arith, omega arith)

-- A listing changes nothing, shows 100 rows at most whatever limit is asked for, and each item is of
-- a parked write that a resolution by the item's id finds for the session, if no two have one id.
pub pending_list-IsResolvable :
    (t : Trim) (s : Session) (limit offset : ℤ) (db : Db)
    → UniqueRows db.pending
    → (items : List PendingItem) × (pending_list t s limit offset db ≡ ok (items, db))
      × (length items ≤ 100)
      × All (IsResolvable t s db) items
unfolding pending_list
pending_list-IsResolvable t s limit offset db unique =
    let rows = sort_by newer (keep (mine s) db.pending) in
    let page = take (clamp_page limit) (drop (clamp_offset offset) rows) in
    (
      map (to_item t) page,
      gets-ok _ db,
      omega (
        arith,
        length-map (to_item t) page,
        length-take (clamp_page limit) (drop (clamp_offset offset) rows),
        clamp_page_bounds limit,
      ),
      In-All (IsResolvable t s db) (map (to_item t) page) (λ item m.
          let (r, on_page, e) = In-map (to_item t) item page m in
          let kept =
            In-sort_by newer r (keep (mine s) db.pending)
              (In-drop (clamp_offset offset) r rows (In-take (clamp_page limit) r _ on_page)) in
          let (there, own) = In-keep (mine s) r db.pending kept in
          subst (IsResolvable t s db) e (row-IsResolvable t s db unique r there own)),
    )
