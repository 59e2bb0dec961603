-- ===== src/DynamoDb/Storage.antt =====
-- ruststack-dynamodb/src/storage.rs: the store and the operations on its tables. The operations on
-- items are in Storage/Items and Storage/Read. The parsers of expressions come as the interface
-- `Parsers`, the clock as an argument.
pub mod Items
pub mod View
pub mod Writes
pub mod Step
pub mod Collision
pub mod Read
pub mod Runs
pub mod Tests
use Prim.Native.String
use ruststack.Prelude.{
  ℕ, String, Bool, true, false, Option, none, some, List, [], ◌∷◌, map, string_eq, length,
  if◌then◌else◌,
}
use ruststack.Dict.{Dict, get, put, remove, contains_key, keys}
use ruststack.Result.{Result, ok, err, ok_or, ◌>>=◌}
use ruststack.Text.{eq_ignore_ascii_case}
use ruststack.DynamoDb.Values.{AttributeValue, Item, Float}
use ruststack.DynamoDb.Conditions.{
  ConditionOp, KeyCondition, ExpressionContext, Failure, evaluate_condition,
}
use ruststack.DynamoDb.Updates.{ParsedUpdateExpression, apply_update}
use ruststack.DynamoDb.Schema.{
  DynamoDbError, resource_not_found, resource_in_use, conditional_check_failed, expression,
  KeySchemaElement, AttributeDefinition, ProvisionedThroughput, GlobalSecondaryIndex,
  LocalSecondaryIndex, GlobalSecondaryIndexDescription, TableDescription, IndexStatus, TableStatus,
  ReturnValues,
}
use ruststack.DynamoDb.Table.{map_option, SecondaryIndex, Table, new_table, get_key, update_indexes}

-- What the store asks of ruststack-dynamodb/src/expression.rs.
pub record Parsers : Type 0 where
  pub parse_condition : String → Result Failure (Option ConditionOp)
  pub parse_key_condition : String → Result Failure (List KeyCondition)
  pub parse_update_expression : String → Result Failure ParsedUpdateExpression

pub record DynamoDbStorage : Type 0 where
  pub tables : Dict String Table

abbrev pub new : DynamoDbStorage
new = record { tables = [] }

-- the `From` of an expression error
abbrev pub lift {ℓ} : {A : Type ℓ} → Result Failure A → Result DynamoDbError A
lift (ok a) = ok a
lift (err e) = err (expression e)

abbrev pub unwrap_or {ℓ} : {A : Type ℓ} → Option A → A → A
unwrap_or none d = d
unwrap_or (some a) d = a

abbrev pub describe_gsi : String → GlobalSecondaryIndex → GlobalSecondaryIndexDescription
describe_gsi table_name gsi = record {
  index_name = gsi.index_name;
  key_schema = gsi.key_schema;
  projection = gsi.projection;
  index_status = IndexStatus.active;
  index_arn =
      String.◌++◌ "arn:aws:dynamodb:us-east-1:000000000000:table/"
        (String.◌++◌ table_name (String.◌++◌ "/index/" gsi.index_name));
  item_count = 0;
  index_size_bytes = 0;
}

unfoldable pub create_table :
    ℕ
    → String
    → List KeySchemaElement
    → List AttributeDefinition
    → ProvisionedThroughput
    → Option (List GlobalSecondaryIndex)
    → Option (List LocalSecondaryIndex)
    → DynamoDbStorage
    → Result DynamoDbError TableDescription × DynamoDbStorage
unfolding new_table
create_table now table_name key_schema attribute_definitions provisioned_throughput gsis lsis s =
    let description : TableDescription = record {
      table_name = table_name;
      table_arn = String.◌++◌ "arn:aws:dynamodb:us-east-1:000000000000:table/" table_name;
      table_status = TableStatus.active;
      key_schema = key_schema;
      attribute_definitions = attribute_definitions;
      provisioned_throughput = provisioned_throughput;
      creation_date_time = now;
      item_count = 0;
      table_size_bytes = 0;
      global_secondary_indexes = map_option (map (describe_gsi table_name)) gsis;
      local_secondary_indexes = lsis;
    } in
    let table = new_table description (unwrap_or gsis []) (unwrap_or lsis []) in
    if contains_key table_name s.tables
    then (err (resource_in_use table_name), s)
    else (ok description, record { tables = put table_name table s.tables })

unfoldable pub delete_found :
    String
    → DynamoDbStorage
    → Option Table
    → Result DynamoDbError TableDescription × DynamoDbStorage
delete_found table_name s none = (err (resource_not_found table_name), s)
delete_found table_name s (some table) = (
  ok (record (table.description) { table_status = TableStatus.deleting }),
  record { tables = remove table_name s.tables },
)

unfoldable pub delete_table :
    String → DynamoDbStorage → Result DynamoDbError TableDescription × DynamoDbStorage
unfolding delete_found
delete_table table_name s = delete_found table_name s (get table_name s.tables)

abbrev pub count_found :
    GlobalSecondaryIndexDescription → Option SecondaryIndex → GlobalSecondaryIndexDescription
count_found gsi none = gsi
count_found gsi (some index) = record gsi { item_count = length index.items }

unfoldable pub describe_table : String → DynamoDbStorage → Result DynamoDbError TableDescription
describe_table table_name s = do
  table ← ok_or (get table_name s.tables) (resource_not_found table_name)
  ok (record (table.description) {
    item_count = length table.items;
    global_secondary_indexes =
        map_option
          (map (λ (gsi : GlobalSecondaryIndexDescription).
            count_found gsi (get gsi.index_name table.global_secondary_indexes)))
          table.description.global_secondary_indexes;
  })

unfoldable pub list_tables : DynamoDbStorage → List String
list_tables s = keys s.tables

-- An operation on the table of a name.
unfoldable pub at_table {ℓ} :
    {A : Type ℓ}
    → String
    → (Table → Result DynamoDbError A × Table)
    → DynamoDbStorage
    → Option Table
    → Result DynamoDbError A × DynamoDbStorage
at_table table_name f s none = (err (resource_not_found table_name), s)
at_table table_name f s (some table) =
    let (r, table') = f table in (r, record { tables = put table_name table' s.tables })

unfoldable pub with_table {ℓ} :
    {A : Type ℓ}
    → String
    → (Table → Result DynamoDbError A × Table)
    → DynamoDbStorage
    → Result DynamoDbError A × DynamoDbStorage
unfolding at_table
with_table table_name f s = at_table table_name f s (get table_name s.tables)

-- `ReturnValues::from_str`
unfoldable pub return_values_of : String → ReturnValues
return_values_of text =
    if eq_ignore_ascii_case text "ALL_OLD"
    then ReturnValues.all_old
    else if eq_ignore_ascii_case text "UPDATED_OLD"
    then ReturnValues.updated_old
    else if eq_ignore_ascii_case text "ALL_NEW"
    then ReturnValues.all_new
    else if eq_ignore_ascii_case text "UPDATED_NEW"
    then ReturnValues.updated_new
    else ReturnValues.none
