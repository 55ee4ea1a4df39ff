-- ===== src/Core/Dedup.antt =====
-- engraphy/core/dedup.py: the write path. Similarities and thresholds are in millionths; the
-- distance is that of pgvector (`<=>`) and `round2` is Python's `round(x, 2)`, both parameters.
-- The advisory lock is left out: each transaction is one step on the tables.
pub mod Bands
pub mod Links
pub mod Envelope
pub mod Candidates
pub mod Branches
pub mod Write
pub mod Moves
pub mod Resolve
pub mod Supersede
pub mod Steps
pub mod Preserves
pub mod Counted
pub mod Accounts
pub mod Logs
pub mod Resolutions
pub mod Bounds
pub mod Resonance
pub mod Inserts
