-- ===== src/Post.antt =====
-- services/post/service: posts, their likes and shares, and the clean-up of deleted ones.
pub mod Tables
pub mod Counts
pub mod Create
pub mod Delete
pub mod Likes
pub mod Cleanup
pub mod Live
pub mod Invariant
pub mod Growth
pub mod Removal
pub mod Liking
pub mod Valid
pub mod Reachable
pub mod Counting
pub mod Saving
pub mod Cleaning
pub mod Drained
pub mod Reconcile
pub mod Reconciled
pub mod Repairs
pub mod Comments
pub mod Threaded
pub mod Home
pub mod Search
