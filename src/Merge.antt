-- ===== src/Merge.antt =====
-- The package merge: vector clocks, the merge engine and versioned values.
pub mod Clock
pub mod Engine
pub mod Versioned
