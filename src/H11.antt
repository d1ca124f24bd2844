-- ===== src/H11.antt =====
-- protocol/h11.py: a connection of HTTP/1.1.
pub mod Package
pub mod Upgrade
pub mod Connection
pub mod Protocol
pub mod Reading
pub mod Laws
pub mod Lifetime
pub mod QuietSteps
pub mod Sending
pub mod Streaming
pub mod OneByOne
pub mod Turns
pub mod Requests
pub mod Fuel
pub mod Using
pub mod Ending
pub mod PassThrough
pub mod Upgrades
pub mod Toy
mod Tests
