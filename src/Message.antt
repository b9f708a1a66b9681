-- ===== src/Message.antt =====
-- services/message/service: direct conversations, their members and their messages.
pub mod Names
pub mod Tables
pub mod Send
pub mod Invariant
pub mod Appended
pub mod Valid
pub mod Retry
pub mod Once
pub mod Read
pub mod Page
pub mod Inbox
pub mod Window
