-- ===== src/Client/Agreement.antt =====
-- The two transports, `HTTPClient` with the server at its other end and `LocalClient`, beside each
-- other.
pub mod Carried
pub mod Calls
pub mod Transports
pub mod Limits
pub mod Artifacts
mod Examples
