-- ===== src/Reservation.antt =====
-- The seat reservation service of pa3: the server's tables and operations, its protocol, its
-- threads, and its client.
pub mod Tables
pub mod Query
pub mod Client
pub mod Trace
pub mod Replies
pub mod Session
pub mod Wording
pub mod Dialogue
pub mod Options
pub mod Accepting
mod Tests
