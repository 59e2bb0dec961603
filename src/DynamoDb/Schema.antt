-- ===== src/DynamoDb/Schema.antt =====
-- ruststack-dynamodb/src/storage.rs: what describes a table, the errors and the answers. The
-- counts that the store computes are natural numbers, and the creation time is the clock's number
-- of seconds.
use ruststack.Prelude.{ℕ, String, Option, List}
use ruststack.Prelude.Int.{ℤ}
use ruststack.DynamoDb.Values.{Item}
use ruststack.DynamoDb.Conditions.{Failure}

pub data DynamoDbError : Type 0 where
  resource_not_found resource_in_use validation_error internal : String → DynamoDbError
  conditional_check_failed provisioned_throughput_exceeded : DynamoDbError
  expression : Failure → DynamoDbError

pub data KeyType : Type 0 where
  hash range : KeyType

pub record KeySchemaElement : Type 0 where
  pub attribute_name : String
  pub key_type : KeyType

pub data AttributeType : Type 0 where
  s n b : AttributeType

pub record AttributeDefinition : Type 0 where
  pub attribute_name : String
  pub attribute_type : AttributeType

pub record ProvisionedThroughput : Type 0 where
  pub read_capacity_units : ℤ
  pub write_capacity_units : ℤ

pub data ProjectionType : Type 0 where
  all keys_only include : ProjectionType

pub record Projection : Type 0 where
  pub projection_type : ProjectionType
  pub non_key_attributes : Option (List String)

pub record GlobalSecondaryIndex : Type 0 where
  pub index_name : String
  pub key_schema : List KeySchemaElement
  pub projection : Projection
  pub provisioned_throughput : Option ProvisionedThroughput

pub record LocalSecondaryIndex : Type 0 where
  pub index_name : String
  pub key_schema : List KeySchemaElement
  pub projection : Projection

pub data IndexStatus : Type 0 where
  creating active deleting updating : IndexStatus

pub record GlobalSecondaryIndexDescription : Type 0 where
  pub index_name : String
  pub key_schema : List KeySchemaElement
  pub projection : Projection
  pub index_status : IndexStatus
  pub index_arn : String
  pub item_count : ℕ
  pub index_size_bytes : ℕ

pub data TableStatus : Type 0 where
  creating active deleting updating : TableStatus

pub record TableDescription : Type 0 where
  pub table_name : String
  pub table_arn : String
  pub table_status : TableStatus
  pub key_schema : List KeySchemaElement
  pub attribute_definitions : List AttributeDefinition
  pub provisioned_throughput : ProvisionedThroughput
  pub creation_date_time : ℕ
  pub item_count : ℕ
  pub table_size_bytes : ℕ
  pub global_secondary_indexes : Option (List GlobalSecondaryIndexDescription)
  pub local_secondary_indexes : Option (List LocalSecondaryIndex)

pub data ReturnValues : Type 0 where
  none all_old updated_old all_new updated_new : ReturnValues

pub record QueryResult : Type 0 where
  pub items : List Item
  pub count : ℕ
  pub scanned_count : ℕ
  pub last_evaluated_key : Option Item
