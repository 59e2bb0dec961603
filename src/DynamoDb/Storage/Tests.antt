-- ===== src/DynamoDb/Storage/Tests.antt =====
-- Runs of tables at concrete inputs. A stub stands for the parsers of expressions.
use ruststack.Prelude.{
  ◌≡◌, refl, String, Option, none, some, List, [], ◌∷◌, ◌==◌, string_eq, if◌then◌else◌,
}
use ruststack.Prelude.Int.{pos}
use ruststack.Dict.{get}
use ruststack.Result.{Result, ok, err, state, reply}
use ruststack.Text.{strip_prefix_code}
use ruststack.Reach.{Reach, here, next}
use ruststack.DynamoDb.Values.{Item, s}
use ruststack.DynamoDb.Tests.{float}
use ruststack.DynamoDb.Conditions.{
  ConditionOp, attribute_not_exists, KeyCondition, eq, ExpressionContext, Failure, raised, invalid,
  evaluate_condition, resolve_name,
}
use ruststack.DynamoDb.Paths.{get_nested_attribute}
use ruststack.DynamoDb.Updates.{set, value, ParsedUpdateExpression}
use ruststack.DynamoDb.Schema.{
  KeySchemaElement, KeyType, TableDescription, TableStatus, ProvisionedThroughput,
  GlobalSecondaryIndex, ProjectionType, ReturnValues,
}
use ruststack.DynamoDb.Table.{Table, new_table, get_key, join, key_parts}
use ruststack.DynamoDb.Storage.{Parsers, DynamoDbStorage, new, unwrap_or, create_table}
use ruststack.DynamoDb.Storage.Items.{put_item, check, check_condition}
use ruststack.DynamoDb.Storage.View.{view}
use ruststack.DynamoDb.Storage.Step.{Step, creates, puts, IsValid, reached_tables-IsValid}
use ruststack.DynamoDb.Storage.Collision.{put_item_collision}
use ruststack.DynamoDb.Storage.Read.{get_item, projection, get_item-put_item}
use ruststack.DynamoDb.Storage.Runs.{Write, run, perform, specified, view-run}

-- Three texts parse; every other is an error.
abbrev parse_condition : String → Result Failure (Option ConditionOp)
parse_condition text =
    if text == "attribute_not_exists(pk)"
    then ok (some (attribute_not_exists "pk"))
    else if text == ""
    then ok none
    else err (raised (invalid text))

abbrev parse_key_condition : String → Result Failure (List KeyCondition)
parse_key_condition text =
    if text == "pk = :pk"
    then ok (record { attribute = "pk"; op = eq; values = ":pk" ∷ [] } ∷ [])
    else err (raised (invalid text))

abbrev parse_update : String → Result Failure ParsedUpdateExpression
parse_update text = ok (record {
  set_actions = set "colour" (value ":colour") ∷ [];
  remove_actions = [];
  add_actions = [];
  delete_actions = [];
})

abbrev pub parsers : Parsers
parsers = record {
  parse_condition = parse_condition;
  parse_key_condition = parse_key_condition;
  parse_update_expression = parse_update;
}

abbrev pub ctx : ExpressionContext
ctx = record {
  attribute_names = none;
  attribute_values = some ((":pk", s "a") ∷ (":colour", s "red") ∷ []);
}

abbrev pub schema : List KeySchemaElement
schema =
    record { attribute_name = "pk"; key_type = KeyType.hash }
    ∷ record { attribute_name = "sk"; key_type = KeyType.range }
    ∷ []

abbrev throughput : ProvisionedThroughput
throughput = record { read_capacity_units = pos 5; write_capacity_units = pos 5 }

abbrev by_colour : GlobalSecondaryIndex
by_colour = record {
  index_name = "by_colour";
  key_schema = record { attribute_name = "colour"; key_type = KeyType.hash } ∷ [];
  projection = record { projection_type = ProjectionType.all; non_key_attributes = none };
  provisioned_throughput = none;
}

abbrev pub item : String → String → Item
item pk sk = ("pk", s pk) ∷ ("sk", s sk) ∷ ("colour", s "blue") ∷ []

abbrev key : String → String → Item
key pk sk = ("pk", s pk) ∷ ("sk", s sk) ∷ []

abbrev fresh_table : DynamoDbStorage
fresh_table = state (create_table 7 "things" schema [] throughput (some (by_colour ∷ [])) none new)

abbrev unless_there : Option String
unless_there = some "attribute_not_exists(pk)"

abbrev writes : List Write
writes =
    Write.put ctx "things" (item "a" "1") unless_there
    ∷ Write.put ctx "things" (item "a" "1") unless_there
    ∷ Write.update ctx "things" (key "a" "1") "SET colour = :colour" none ReturnValues.all_new
    ∷ Write.delete ctx "things" (key "a" "1") none
    ∷ Write.put ctx "other" (item "a" "1") none
    ∷ []

view-run_example :
    ((run (perform parsers float) writes fresh_table).0
      ≡ (run (specified parsers float) writes (view fresh_table)).0)
    × (view (run (perform parsers float) writes fresh_table).1
        ≡ (run (specified parsers float) writes (view fresh_table)).1)
view-run_example = view-run parsers float writes fresh_table

abbrev after_put : DynamoDbStorage
after_put = state (put_item parsers float ctx "things" (item "a" "1") unless_there fresh_table)

put_reached : Reach (Step parsers float) new after_put
put_reached =
    next (next here (creates 7 "things" schema [] throughput (some (by_colour ∷ [])) none))
      (puts ctx "things" (item "a" "1") unless_there)

reached_tables-IsValid_example : IsValid after_put
reached_tables-IsValid_example = reached_tables-IsValid parsers float after_put put_reached

abbrev pub table : Table
table = new_table description (by_colour ∷ []) []
  where
    description : TableDescription
    description = record {
      table_name = "things";
      table_arn = "arn:aws:dynamodb:us-east-1:000000000000:table/things";
      table_status = TableStatus.active;
      key_schema = schema;
      attribute_definitions = [];
      provisioned_throughput = throughput;
      creation_date_time = 7;
      item_count = 0;
      table_size_bytes = 0;
      global_secondary_indexes = none;
      local_secondary_indexes = none;
    }

abbrev store : DynamoDbStorage
store = record { tables = ("things", table) ∷ [] }

things : get "things" store.tables ≡ some table
unfolding get
things = refl

a1_key : get_key table (item "a" "1") ≡ ok "a#1"
unfolding get_key key_parts join get new_table
a1_key = refl

a1_wanted : get_key table (key "a" "1") ≡ ok "a#1"
unfolding get_key key_parts join get new_table
a1_wanted = refl

a1_passes :
    check_condition parsers float ctx unless_there (unwrap_or (get "a#1" table.items) []) ≡ ok tt
unfolding check_condition check get new_table evaluate_condition resolve_name get_nested_attribute
    strip_prefix_code
a1_passes = refl

abbrev at_key : String
at_key = "a#1"

get_item-put_item_example :
    get_item "things"
      (key "a" "1")
      (some "sk, colour")
      none
      (state (put_item parsers float ctx "things" (item "a" "1") unless_there store))
    ≡ ok (
        projection
          (some "sk, colour")
          none
          (if at_key == "a#1" then some (item "a" "1") else get "a#1" table.items))
get_item-put_item_example =
    get_item-put_item parsers float ctx "things" (item "a" "1") (key "a" "1") unless_there
      (some "sk, colour") none store table "a#1" "a#1" things a1_key a1_wanted a1_passes

keyed : table.description.key_schema ≡ schema
unfolding new_table
keyed = refl

get_pk : (pk sk : String) → get "pk" (item pk sk) ≡ some (s pk)
unfolding get
get_pk pk sk = refl

get_sk : (pk sk : String) → get "sk" (item pk sk) ≡ some (s sk)
unfolding get
get_sk pk sk = refl

put_item_collision_example :
    reply (
      put_item parsers float ctx "things"
        (item "x" "y#z")
        none
        (state (put_item parsers float ctx "things" (item "x#y" "z") none store)))
    ≡ ok (some (item "x#y" "z"))
put_item_collision_example =
    put_item_collision parsers float ctx "things" store table
      (record { attribute_name = "pk"; key_type = KeyType.hash })
      (record { attribute_name = "sk"; key_type = KeyType.range }) (item "x#y" "z") (item "x" "y#z")
      "x" "y" "z" things keyed (get_pk "x#y" "z") (get_sk "x#y" "z") (get_pk "x" "y#z")
      (get_sk "x" "y#z")
