-- ===== src/GenUtils.antt =====
-- src/main/ts/common/GenUtils.ts: arrays, combinations, reconciliation and text.
pub mod Arrays
pub mod Unique
pub mod PowerSet
pub mod Reconcile
pub mod Strings
