-- ===== src/Outbox.antt =====
-- shared/outbox: events that are stored with the change they describe, and published later.
pub mod Table
pub mod Relay
pub mod Rows
pub mod Delivery
pub mod Draining
pub mod Claims
