-- ===== src/Events.antt =====
-- supervisor/internal/events: routing of notifications, and the fallback poll.
pub mod Dispatcher
pub mod Poller
mod Examples
