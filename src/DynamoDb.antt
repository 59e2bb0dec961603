-- ===== src/DynamoDb.antt =====
-- ruststack-dynamodb: values, paths, expressions with their parsers, tables, queries and scans.
mod Tests
pub mod Values
pub mod Paths
pub mod Conditions
pub mod Updates
pub mod Schema
pub mod Table
pub mod Storage
pub mod Sort
pub mod Query
pub mod Parser
