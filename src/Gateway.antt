-- ===== src/Gateway.antt =====
-- gateway: the client-facing server, which routes packets and binds connections to sessions.
pub mod Authorizer
pub mod Server
