-- ===== src/Feed.antt =====
-- shared/feedplan/feedplan.go: the home-feed logic that depends on no store.
pub mod Plan
pub mod Batches
pub mod Merge
pub mod Store
pub mod FanOut
pub mod Worker
