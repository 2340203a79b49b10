-- ===== src/Domain.antt =====
-- src/crates/domain: the provider-neutral domain rules.
pub mod Rbac
