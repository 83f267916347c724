-- ===== src/Rpc.antt =====
-- rpc/base: the connection to the server, its records and its session tickets.
pub mod TicketsManager
pub mod Ciphers
pub mod Connection
