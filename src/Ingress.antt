-- ===== src/Ingress.antt =====
-- api/ingress: the LMTP server.
pub mod Address
pub mod Snapshot
pub mod Data
pub mod Message
pub mod Events
pub mod Server
pub mod Transaction
pub mod Delivery
pub mod Session
