-- ===== src/Core/Pending.antt =====
-- engraphy/core/pending.py: the list of the caller's parked writes. A payload that was parked has all
-- its parts, as texts.
pub mod Rows
use engraphy.Base.{
  ℕ, zero, suc, String, ◌<>◌, Bool, true, false, not, ◌&&◌, ◌||◌, Option, List, [], ◌∷◌, map, ℤ,
  pos, negsuc, min, max, keep, take, drop, ltb, leb, ◌==◌, string_eq, nat_eq, if◌then◌else◌,
  sort_by,
}
use engraphy.Core.Tx.{Tx, gets}
use engraphy.Core.Store.{Db, Session, Candidate, Payload, PendingRow, count}

-- Python's `strip` and `rstrip` of a text.
pub record Trim : Type 0 where
  pub strip : String → String
  pub rstrip : String → String

-- `_clamp_limit` and `_clamp_offset`, of an integer
unfoldable pub clamp_page : ℤ → ℕ
clamp_page (pos n) = max 1 (min n 100)
clamp_page (negsuc n) = 1

unfoldable pub clamp_offset : ℤ → ℕ
clamp_offset (pos n) = n
clamp_offset (negsuc n) = 0

-- `text[:n]`
unfoldable pub prefix : ℕ → String → String
prefix zero s = ""
prefix (suc n) String.[] = ""
prefix (suc n) (String.◌∷◌ c s) = String.◌∷◌ c (prefix n s)

unfoldable pub capped : Trim → String → String
unfolding prefix
capped t body = if ltb 280 (count body) then t.rstrip (prefix 280 body) <> "…" else body

-- `_payload_preview`
unfoldable pub payload_preview : Trim → Payload → String
unfolding capped
payload_preview t p =
    let title = t.strip p.title in
    let body = capped t (t.strip p.body) in
    if not (title == "") && not (body == "")
    then title <> " — " <> body
    else if title == ""
    then body
    else title

pub record CandidateItem : Type 0 where
  pub id : ℕ
  pub title : String
  pub similarity : ℤ

pub record PendingItem : Type 0 where
  pub id : ℕ
  pub preview : String
  pub candidates : List CandidateItem
  pub expires_at : ℕ
  pub created_at : ℕ

-- `_to_item`
unfoldable pub to_item : Trim → PendingRow → PendingItem
unfolding payload_preview
to_item t r = record {
  id = r.id;
  preview = payload_preview t r.payload;
  candidates =
      map (λ c. record { id = c.id; title = c.title; similarity = c.similarity })
        r.payload.candidates;
  expires_at = r.expires_at;
  created_at = r.created_at;
}

-- ORDER BY created_at DESC, id DESC
unfoldable pub newer : PendingRow → PendingRow → Bool
newer a b = ltb b.created_at a.created_at || (a.created_at == b.created_at && leb b.id a.id)

-- The caller's own rows.
unfoldable pub mine : Session → PendingRow → Bool
mine s r = r.space == s.space && r.author == s.principal

-- `pending_list`
unfoldable pub pending_list : Trim → Session → ℤ → ℤ → Tx Db (List PendingItem)
unfolding to_item newer mine clamp_page clamp_offset sort_by
pending_list t s limit offset = gets (λ db. map (to_item t) (
    take (clamp_page limit)
      (drop (clamp_offset offset) (sort_by newer (keep (mine s) db.pending)))))
