-- ===== src/Reconcile.antt =====
-- The reconciler of SPIRE entries and agents, internal/reconcile.
pub mod Diff
pub mod Wanted
pub mod Bans
pub mod Pass
pub mod Config
