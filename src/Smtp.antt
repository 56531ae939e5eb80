-- ===== src/Smtp.antt =====
-- crates/camelmailer-smtp: the SMTP session state machine (src/session.rs) and the loop that pumps
-- lines through it (src/server.rs).
pub mod Types
pub mod Env
pub mod Address
pub mod Hash
pub mod Received
pub mod Basic
pub mod Auth
pub mod Envelope
pub mod Body
pub mod Finish
pub mod Handle
pub mod Drive
pub mod Conversation
pub mod Invariant
pub mod Total
pub mod Trace
pub mod Transparency
pub mod Gates
pub mod Limits
pub mod Guard
pub mod Fixture
mod Tests
