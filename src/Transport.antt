-- ===== src/Transport.antt =====
-- The package transport: its models, its response stream and the registry client.
pub mod Models
pub mod Stream
pub mod Http
pub mod Client
pub mod Interface
pub mod Stored
