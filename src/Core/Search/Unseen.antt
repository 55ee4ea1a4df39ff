-- ===== src/Core/Search/Unseen.antt =====
-- engraphy/core/search.py: the whole of `search`, on tables without the rows that a session cannot see.
pub mod Rules
use engraphy.Base.{sym, string_eq, nat_eq}
use engraphy.Core.Tx.{
  Tx, Result, ok, err, pure, gets, modify, require, or_raise, transaction, ◌>>=◌, continue,
}
use engraphy.Core.Tx.Runs.{
  pure-ok, gets-ok, modify-ok, require-ok, require-err, or_raise-ok, or_raise-err, raise-err,
}
use engraphy.Core.Store.{unless_error}
use engraphy.Core.Metrics.{bump_row, bump_many, swallowed, bump_any, bump_safe, counted}
use engraphy.Core.Search.Query.{Search}
