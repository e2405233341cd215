-- ===== src/Tokens.antt =====
-- api/store/tokens.go: credentials.
pub mod Format
pub mod Console
