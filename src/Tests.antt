-- ===== src/Tests.antt =====
-- Runs of the model on small tables, and the theorems at concrete inputs.
mod Samples
mod Writes
mod Gates
mod Reads
mod Scopes
mod Pending
mod Calls
mod Walks
mod Doors
