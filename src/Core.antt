-- ===== src/Core.antt =====
-- engraphy/core: the memory itself.
pub mod Json
pub mod AttrSpec
pub mod Tx
pub mod Store
pub mod Jaccard
pub mod Dedup
pub mod ScopeSet
pub mod Scopes
pub mod Pending
pub mod Recall
pub mod Metrics
pub mod Inbox
pub mod Search
pub mod Embedding
pub mod Get
pub mod Link
pub mod Update
pub mod Traverse
