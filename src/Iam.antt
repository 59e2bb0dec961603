-- ===== src/Iam.antt =====
-- ruststack-iam: policies and their evaluation, the role and policy store, the enforcement.
pub mod Policy
pub mod Storage
pub mod Enforce
mod Tests
