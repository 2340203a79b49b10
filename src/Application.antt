-- ===== src/Application.antt =====
-- src/crates/application: the services that are pure or act through a port.
pub mod Pagination
pub mod Validation
pub mod Planner
pub mod Series
pub mod Alerts
pub mod Webhooks
pub mod Sessions
