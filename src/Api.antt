-- ===== src/Api.antt =====
-- internal/api: what a deployment request must satisfy, and the store of deployments behind the API.
pub mod Validate
pub mod Store
pub mod Server
pub mod Views
pub mod Logs
