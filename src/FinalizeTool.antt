-- ===== src/FinalizeTool.antt =====
-- supervisor/internal/finalize: what the finalize tools accept.
pub mod Fields
pub mod Validate
mod Examples
