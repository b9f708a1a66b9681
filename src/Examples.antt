-- ===== src/Examples.antt =====
-- Concrete inputs: tests of the definitions, and each theorem at an input where it applies.
mod Feeds
mod Consuming
mod Messaging
mod Counting
mod Outboxing
mod Posting
mod Following
mod Retrying
mod Reconciling
mod Commenting
mod HomeFeed
mod Indexing
mod Delivering
mod Running
