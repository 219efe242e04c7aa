-- ===== src/Throttle.antt =====
-- supervisor/internal/throttle and supervisor/internal/concurrency: the gates before a spawn and
-- before a new ticket.
pub mod Gate
pub mod Fire
mod Examples
