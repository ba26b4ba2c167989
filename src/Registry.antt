-- ===== src/Registry.antt =====
-- internal/server/container: what the server knows of its tunnels. A method holds its lock from
-- start to end and is a function of the table; a pointer that a table hands out is the record it
-- points to.
pub mod Callbacks
pub mod Domains
pub mod Tunnels
mod Tests
