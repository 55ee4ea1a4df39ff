-- ===== src/Core/Inbox/Pages.antt =====
-- engraphy/core/inbox.py: the pages of the triage queue.
use engraphy.Base.{
  ℕ, zero, suc, ◌+◌, ◌-◌, ◌≤◌, ◌≡◌, refl, ap, ◌∙◌, Bool, true, false, ◌&&◌, List, [], ◌∷◌, ◌++◌,
  ltb, length, keep, take, drop, ◌==◌, nat_eq, All, All-sort_by, All-keep, IsSorted, sort_by,
  sort_by-IsSorted, length-take, arith,
}
use native.Mathlib.Nat.{zero-add}
use engraphy.Core.Tx.{ok}
use engraphy.Core.Tx.Runs.{bind-ok, gets-ok, pure-ok}
use engraphy.Core.Store.{Db, Session, InboxRow, pending, inbox_status_eq}
use engraphy.Core.Inbox.{inbox_visible, older, queue, Page, list_pending}

older_total : (a b : InboxRow) → older a b ≡ false → older b a ≡ true
unfolding older
older_total a b h = ground arith

older_trans : (a b c : InboxRow) → older a b ≡ true → older b c ≡ true → older a c ≡ true
unfolding older
older_trans a b c h k = ground arith

abbrev waits : Session → Db → InboxRow → Bool
waits s db r = inbox_visible s db r && r.status == pending

take-take_next : {A : Type 0} (n k : ℕ) (xs : List A) → n ≤ k → take n (take k xs) ≡ take n xs
take-take_next zero k xs h = refl
take-take_next (suc n) zero xs h = elim h [ ]
take-take_next (suc n) (suc k) [] h = refl
take-take_next (suc n) (suc k) (x ∷ xs) h = ap (λ ys. x ∷ ys) (take-take_next n k xs (omega arith))

take-drop :
    {A : Type 0} (m n k : ℕ) (xs : List A) → k ≡ m + n → take m xs ++ take n (drop m xs) ≡ take k xs
take-drop zero n k xs h = rw (h, zero-add n) refl
take-drop (suc m) n zero xs h = absurd (omega (arith, h))
take-drop (suc m) zero (suc k) [] h = refl
take-drop (suc m) (suc n) (suc k) [] h = refl
take-drop (suc m) n (suc k) (x ∷ xs) h = ap (λ ys. x ∷ ys) (take-drop m n k xs (omega (arith, h)))

length-drop : {A : Type 0} (n : ℕ) (xs : List A) → length (drop n xs) ≡ length xs - n
length-drop zero xs = omega arith
length-drop (suc n) [] = omega arith
length-drop (suc n) (x ∷ xs) = omega (arith, length-drop n xs)

-- A page of the queue: it follows the rows that were passed over, is cut off at the limit, and says
-- whether anything is left. The queue is sorted, oldest first, and holds what waits for the session.
abbrev pub IsPage : Session → ℕ → ℕ → Db → Page → Type 0
IsPage s limit offset db p =
    (take offset (queue s db) ++ p.items ≡ take (offset + limit) (queue s db))
    × (p.truncated ≡ ltb (offset + limit) (length (queue s db)))
    × IsSorted older (queue s db)
    × All (λ r. waits s db r ≡ true) (queue s db)

-- A triage page changes nothing. With the rows that its offset passes over it makes up the queue as
-- far as the offset and the limit reach, and it is marked as truncated exactly if the queue goes
-- on; the queue holds only pending items that the session reads, oldest first and then by id.
list_pending-IsPage :
    (s : Session) (limit offset : ℕ) (db : Db)
    → (p : Page) × (list_pending s limit offset db ≡ ok (p, db)) × IsPage s limit offset db p
unfolding list_pending queue
list_pending-IsPage s limit offset db =
    let rows = sort_by older (keep (waits s db) db.inbox) in
    (
      _,
      bind-ok _ _ db (gets-ok _ db) (pure-ok _ db),
      (
        ap (λ ys. take offset rows ++ ys)
              (take-take_next limit (limit + 1) (drop offset rows) (omega arith))
            ∙ take-drop offset limit (offset + limit) rows refl,
        ground (arith, length-take (limit + 1) (drop offset rows), length-drop offset rows),
        sort_by-IsSorted older older_total older_trans (keep (waits s db) db.inbox),
        All-sort_by (λ r. waits s db r ≡ true) older (keep (waits s db) db.inbox)
            (All-keep (waits s db) db.inbox),
      ),
    )
