-- ===== src/Supervisor.antt =====
-- internal/supervisor: the node agent.
pub mod Machine
pub mod Commands
pub mod Process
pub mod Ports
pub mod Spawn
pub mod Consumer
pub mod Reconcile
pub mod Health
pub mod Telemetry
