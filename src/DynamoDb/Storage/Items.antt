-- ===== src/DynamoDb/Storage/Items.antt =====
-- ruststack-dynamodb/src/storage.rs: the writes of items, each with its checks.
use ruststack.Prelude.{String, Option, none, some, [], string_eq, if◌then◌else◌}
use ruststack.Dict.{get, put, remove}
use ruststack.Result.{Result, ok, err, ◌>>=◌}
use ruststack.DynamoDb.Values.{Item, Float}
use ruststack.DynamoDb.Conditions.{ConditionOp, ExpressionContext, Failure, evaluate_condition}
use ruststack.DynamoDb.Updates.{apply_update}
use ruststack.DynamoDb.Schema.{DynamoDbError, conditional_check_failed, expression, ReturnValues}
use ruststack.DynamoDb.Table.{Table, get_key, update_indexes}
use ruststack.DynamoDb.Storage.{Parsers, DynamoDbStorage, lift, unwrap_or, with_table}

module _ (parsers : Parsers) (float : Float) where
  unfoldable pub check :
      ExpressionContext → Option ConditionOp → Item → Result DynamoDbError (Unit {0})
  check ctx none item = ok tt
  check ctx (some cond) item = do
    holds ← lift (evaluate_condition float ctx cond item)
    if holds then ok tt else err conditional_check_failed

  -- The condition of a write, checked on the item as it stands.
  unfoldable pub check_condition :
      ExpressionContext → Option String → Item → Result DynamoDbError (Unit {0})
  unfolding check
  check_condition ctx none item = ok tt
  check_condition ctx (some cond_expr) item = do
    condition ← lift (parsers.parse_condition cond_expr)
    check ctx condition item

  -- The key under which a put writes, once its checks are passed.
  unfoldable pub put_key :
      ExpressionContext → Option String → Item → Table → Result DynamoDbError String
  unfolding check_condition get_key
  put_key ctx condition_expression item table = do
    key ← get_key table item
    _ ← check_condition ctx condition_expression (unwrap_or (get key table.items) [])
    ok key

  unfoldable pub store_item :
      Item → Table → Result DynamoDbError String → Result DynamoDbError (Option Item) × Table
  unfolding update_indexes
  store_item item table (err e) = (err e, table)
  store_item item table (ok key) =
      let indexed = update_indexes (get key table.items) (some item) key table in
      (ok (get key table.items), record indexed { items = put key item indexed.items })

  unfoldable pub put_item :
      ExpressionContext
      → String
      → Item
      → Option String
      → DynamoDbStorage
      → Result DynamoDbError (Option Item) × DynamoDbStorage
  unfolding with_table store_item put_key
  put_item ctx table_name item condition_expression s =
      with_table table_name
        (λ table. store_item item table (put_key ctx condition_expression item table)) s

  unfoldable pub remove_found :
      Table → String → Option Item → Result DynamoDbError (Option Item) × Table
  unfolding update_indexes
  remove_found table key none = (ok none, table)
  remove_found table key (some old) =
      let removed : Table = record table { items = remove key table.items } in
      (ok (some old), update_indexes (some old) none key removed)

  unfoldable pub remove_stored :
      Table → Result DynamoDbError String → Result DynamoDbError (Option Item) × Table
  unfolding remove_found
  remove_stored table (err e) = (err e, table)
  remove_stored table (ok key) = remove_found table key (get key table.items)

  unfoldable pub delete_item :
      ExpressionContext
      → String
      → Item
      → Option String
      → DynamoDbStorage
      → Result DynamoDbError (Option Item) × DynamoDbStorage
  unfolding with_table remove_stored put_key
  delete_item ctx table_name key condition_expression s =
      with_table table_name
        (λ table. remove_stored table (put_key ctx condition_expression key table)) s

  -- `apply_update` on a copy: the changed item, or the first error
  abbrev pub updated : Result Failure (Unit {0}) × Item → Result DynamoDbError Item
  updated (ok _, item) = ok item
  updated (err e, item) = err (expression e)

  -- The key and the changed item of an update, once its checks are passed.
  unfoldable pub update_plan :
      ExpressionContext
      → Item
      → String
      → Option String
      → Table
      → Result DynamoDbError (String × Item)
  unfolding check_condition get_key
  update_plan ctx key update_expression condition_expression table = do
    key_str ← get_key table key
    let item = unwrap_or (get key_str table.items) key
    _ ← check_condition ctx condition_expression item
    update ← lift (parsers.parse_update_expression update_expression)
    changed ← updated (apply_update float ctx update item)
    ok (key_str, changed)

  abbrev pub returned : ReturnValues → Option Item → Item → Option Item
  returned ReturnValues.none old item = none
  returned ReturnValues.all_old old item = old
  returned ReturnValues.updated_old old item = old
  returned ReturnValues.all_new old item = some item
  returned ReturnValues.updated_new old item = some item

  unfoldable pub store_update :
      ReturnValues
      → Table
      → Result DynamoDbError (String × Item)
      → Result DynamoDbError (Option Item) × Table
  unfolding update_indexes
  store_update return_values table (err e) = (err e, table)
  store_update return_values table (ok (key, item)) =
      let indexed = update_indexes (get key table.items) (some item) key table in
      (
        ok (returned return_values (get key table.items) item),
        record indexed { items = put key item indexed.items },
      )

  unfoldable pub update_item :
      ExpressionContext
      → String
      → Item
      → String
      → Option String
      → ReturnValues
      → DynamoDbStorage
      → Result DynamoDbError (Option Item) × DynamoDbStorage
  unfolding with_table store_update update_plan
  update_item ctx table_name key update_expression condition_expression return_values s =
      with_table table_name
        (λ table.
          store_update return_values table
            (update_plan ctx key update_expression condition_expression table))
        s
