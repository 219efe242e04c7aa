-- ===== src/Schedule.antt =====
-- supervisor/internal/schedule: the expression grammar, the slot arithmetic and the tick.
pub mod Expr
pub mod Slots
pub mod Tasks
pub mod Tick
pub mod Validate
pub mod Grammar
mod Examples
