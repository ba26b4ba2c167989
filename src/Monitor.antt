-- ===== src/Monitor.antt =====
-- internal/server/channels/monitor: the control channel between a client and the server.
pub mod Negotiation
pub mod Policy
pub mod Auth
mod Tests
