-- ===== src/Identity.antt =====
-- internal/identity: whether an incoming record is a place of the registry, and what follows from
-- the answer: the resolver at write time, and the sweep of the queue after an import.
pub mod Compat
pub mod Normalize
pub mod Score
pub mod Match
pub mod Resolve
pub mod Sweep
mod Tests
