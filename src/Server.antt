-- ===== src/Server.antt =====
-- The package server: sockets, namespaces, hubs and the server that owns them.
pub mod Types
pub mod Chain
pub mod Socket
pub mod Namespace
pub mod Core
pub mod Emit
pub mod Hub
pub mod Http
pub mod World
