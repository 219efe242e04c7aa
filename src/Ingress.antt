-- ===== src/Ingress.antt =====
-- supervisor/internal/ingress: webhooks from outside that become tickets.
pub mod Signature
pub mod Connector
pub mod GitHub
pub mod Handler
mod Examples
