-- ===== src/ClaudeProto.antt =====
-- supervisor/internal/claudeproto: the lines of the stream-json output of a session.
pub mod Health
pub mod Events
pub mod Decode
pub mod Router
mod Examples
