-- ===== src/Sqs.antt =====
-- ruststack-sqs: queues and their messages.
pub mod Storage
mod Tests
