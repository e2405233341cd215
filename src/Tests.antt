-- ===== src/Tests.antt =====
-- Runs of the model on concrete inputs, and the theorems applied where their hypotheses hold.
mod Ingress
mod Tokens
mod Store
mod Donations
mod Domains
mod Mailboxes
mod Records
mod Extraction
mod Usage
mod Console
mod Message
mod Events
mod Envelope
mod RateLimit
