-- ===== src/Lib.antt =====
-- RustStack, a local emulator of AWS services: one process that answers S3, DynamoDB, SQS, IAM
-- and other requests out of stores it keeps. Each service is a crate with a store (storage.rs
-- or storage/) and handlers that decode a request, call one operation of the store and print
-- its answer. The stores share nothing; the IAM policy engine is a function of the documents
-- and of the request. The development models the stores and the engine: a state is a record, an
-- operation a function of its arguments and the state to its answer and the next state, an
-- error the `err` of a Result beside the state that the code leaves behind. A change in place
-- of a shared map is the new map.
--
-- Files and what they model:
-- - Iam/Policy: PolicyEngine of ruststack-iam/src/policy.rs, with its glob matcher on byte
--   lengths and characters. Iam/Storage: IamStorage of ruststack-iam/src/storage.rs, roles,
--   policies and their attachments with the i32 counter. Iam/Enforce: enforce_iam of
--   ruststack-iam/src/middleware.rs, which finds a role of the store for a request and asks the
--   engine.
-- - Sqs/Storage: SqsStorage of ruststack-sqs/src/storage.rs, with queues as lists of messages
--   from front to back, and simple_md5 on 128 bits.
-- - S3/Types: the data types of ruststack-s3/src/storage/traits.rs. S3/Ephemeral: buckets,
--   objects and copies of EphemeralStorage in ruststack-s3/src/storage/ephemeral.rs;
--   S3/Multipart: its multipart uploads; S3/Listing: list_objects.
-- - SecretsManager/Storage: SecretsManagerStorage of ruststack-secretsmanager/src/storage.rs,
--   with the version stages AWSCURRENT and AWSPREVIOUS.
-- - DynamoDb/Values: AttributeValue and Item of ruststack-dynamodb/src/storage.rs, and the
--   comparison of values. DynamoDb/Paths, DynamoDb/Conditions and DynamoDb/Updates:
--   get/set/remove_nested_attribute, evaluate_condition with evaluate_key_conditions, and
--   apply_update with evaluate_update_value, of ruststack-dynamodb/src/expression.rs.
-- - DynamoDb/Schema, DynamoDb/Table and DynamoDb/Storage: the descriptions, SecondaryIndex and
--   Table, and the operations of DynamoDBStorage in ruststack-dynamodb/src/storage.rs, with the
--   writes of items in DynamoDb/Storage/Items and the reads in DynamoDb/Storage/Read;
--   DynamoDb/Query: its queries and scans, with the order of a query in DynamoDb/Sort. They
--   call the evaluator of DynamoDb/Conditions and DynamoDb/Updates, and the parsers through the
--   interface Parsers of DynamoDb/Storage. DynamoDb/Storage/View and DynamoDb/Storage/Writes
--   give the specification: a table is a key schema and a function from text keys to items.
-- - DynamoDb/Parser with its children Splits and Actions: parse_key_condition, parse_condition
--   and parse_update_expression with their helpers of ruststack-dynamodb/src/expression.rs,
--   which are the Parsers of the tables.
-- - Prelude (tests, lists, integers), Dict (HashMap and DashMap), Text (native strings, UTF-8
--   lengths, decimals), Result (`?` as a bind) and Reach (runs of a step relation) are shared.
--   Under each component, the child modules other than the definitions hold proofs, and Tests
--   concrete runs.
--
-- Conventions. The clock and the UUIDs that an operation draws are arguments; a loop that draws
-- several takes them as functions of the turn. MD5 and the hexadecimal encoding of the crates
-- md5 and hex are the parameter Digest, Base64 of the crate base64 the parameter Base64, the
-- JSON parser of policy documents the parameter from_json, and the operations of f64 the
-- parameter Float. A panic on an index out of range is a failure of its own, `panicked`. Bytes
-- are numbers. A map is an association list whose order stands for the iteration order that
-- Rust leaves open. The standard library's sort_by is a stable sort where its comparison is a
-- total order on the items, and the parameter Unordered, which may panic, where it is not.
-- Locks and await points are left out: an operation is one step, and runs are sequences of
-- steps. Loops are structural recursion, or recursion on fuel in two places: Text/Decimal,
-- where twenty digits are enough for the 64-bit integers that are printed, and the recursive
-- parsers of DynamoDB expressions, which get one turn more than the text has characters:
-- enough, since every recursive call is on a shorter text, and a run that spent its fuel would
-- be a `panicked` failure. The parsers are modelled on ASCII text, where positions of bytes are
-- positions of characters and the case of a letter is a matter of its code; the regular
-- expressions of the crate regex_lite are the parameter Patterns.
--
-- Not modelled: the HTTP handlers with their JSON and XML, the persistent stores over files and
-- SQLite, Lambda with its containers, the router and the command line, which mostly call
-- third-party code; the services Step Functions, SNS, Firehose, Cognito, API Gateway and
-- CloudFormation.
pub mod Prelude
pub mod Dict
pub mod Text
pub mod Iam
pub mod Result
pub mod Reach
pub mod Sqs
pub mod S3
pub mod SecretsManager
pub mod DynamoDb
