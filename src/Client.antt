-- ===== src/Client.antt =====
-- src/forge/client: what callers use.
pub mod Errors
pub mod Transport
pub mod Local
pub mod Http
pub mod Agreement
pub mod Sdk
pub mod Streams
pub mod Delivery
mod Examples
