-- ===== src/S3.antt =====
-- ruststack-s3: the storage in memory.
mod Tests
pub mod Types
pub mod Ephemeral
pub mod Multipart
pub mod Listing
