-- ===== src/SecretsManager.antt =====
-- ruststack-secretsmanager: the storage in memory.
mod Tests
pub mod Storage
