-- ===== src/Tests/Pending.antt =====
-- engraphy/core/pending.py at sample inputs.
use engraphy.Base.{◌≡◌, ◌≤◌, List, pos, negsuc, length, All}
use engraphy.Core.Tx.{ok}
use engraphy.Core.Pending.{Trim, PendingItem, pending_list}
use engraphy.Core.Pending.Rows.{IsResolvable, pending_list-IsResolvable}
use engraphy.Tests.Samples.{alice, db}

abbrev trim : Trim
trim = record { strip = λ text. text; rstrip = λ text. text }

pending_list-IsResolvable_example :
    (items : List PendingItem) × (pending_list trim alice (pos 500) (negsuc 0) db ≡ ok (items, db))
    × (length items ≤ 100)
    × All (IsResolvable trim alice db) items
pending_list-IsResolvable_example =
    pending_list-IsResolvable trim alice (pos 500) (negsuc 0) db (tt, tt)
