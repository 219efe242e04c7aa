-- ===== src/Containers.antt =====
-- supervisor/internal/agentcontainer: the raw stream of an exec in a container.
pub mod Demux
mod Examples
