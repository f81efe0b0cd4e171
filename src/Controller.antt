-- ===== src/Controller.antt =====
-- internal/controller: the reconciliation loops of the control plane.
pub mod Autoscale
pub mod Replica
pub mod Health
