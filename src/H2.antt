-- ===== src/H2.antt =====
-- protocol/h2.py: a connection of HTTP/2.
pub mod Package
pub mod Tables
pub mod Protocol
pub mod Reading
pub mod Lifetime
pub mod Steps
pub mod Sending
pub mod Turns
pub mod Registry
pub mod Closing
pub mod Small
mod Tests
