-- ===== src/Client.antt =====
-- The terminal client of the server: src/solort/cli.py.
pub mod Sse
pub mod Chat
pub mod ChatScript
pub mod Bench
pub mod Printed
mod Examples
