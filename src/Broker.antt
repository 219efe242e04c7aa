-- ===== src/Broker.antt =====
-- supervisor/internal/actionbroker and the verb that feeds it: external actions are classified
-- into tiers, stored, approved by the operator where the tier wants it, and dispatched.
pub mod Policy
pub mod Tables
pub mod GitHub
pub mod Dispatcher
pub mod Request
pub mod System
mod Examples
