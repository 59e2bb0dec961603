-- ===== src/DynamoDb/Storage/Writes.antt =====
-- The puts, deletes and updates of ruststack-dynamodb/src/storage.rs, each against its specification.
use ruststack.Prelude.{
  ◌≡◌, refl, String, Option, none, some, [], arith, string_eq, eq_iff, Option-cases, inl, inr,
}
use ruststack.Dict.{get}
use ruststack.Result.{Result, ok, err, state, reply, ◌>>=◌}
use ruststack.DynamoDb.Values.{Item, Float}
use ruststack.DynamoDb.Conditions.{ExpressionContext}
use ruststack.DynamoDb.Updates.{apply_update}
use ruststack.DynamoDb.Schema.{DynamoDbError, ReturnValues}
use ruststack.DynamoDb.Table.{Table, key_parts, join}
use ruststack.DynamoDb.Storage.{Parsers, DynamoDbStorage, lift, unwrap_or}
use ruststack.DynamoDb.Storage.Items.{
  check_condition, store_item, put_item, remove_stored, delete_item, updated, returned,
  store_update, update_item,
}
use ruststack.DynamoDb.Storage.View.{
  Contents, contents, view, within, changed, contents_eq, contents-put, contents-remove,
  with_table-within,
}

module _ (parsers : Parsers) (float : Float) (ctx : ExpressionContext) where
  -- `get_key` reads the schema only.
  abbrev pub key_of : Contents → Item → Result DynamoDbError String
  key_of c item = key_parts c.schema item >>= λ parts. ok (join parts)

  abbrev pub spec_key : Option String → Item → Contents → Result DynamoDbError String
  spec_key condition item c = key_of c item >>= λ key.
      check_condition parsers float ctx condition (unwrap_or (c.stored key) []) >>= λ _. ok key

  abbrev pub spec_write :
      Item → Contents → Result DynamoDbError String → Result DynamoDbError (Option Item) × Contents
  spec_write item c (err e) = (err e, c)
  spec_write item c (ok key) = (ok (c.stored key), changed key (some item) c)

  -- A put: the item stands under its key, and the answer is what stood there.
  abbrev pub spec_put :
      Item → Option String → Contents → Result DynamoDbError (Option Item) × Contents
  spec_put item condition c = spec_write item c (spec_key condition item c)

  abbrev pub spec_remove :
      Contents → Result DynamoDbError String → Result DynamoDbError (Option Item) × Contents
  spec_remove c (err e) = (err e, c)
  spec_remove c (ok key) = (ok (c.stored key), changed key none c)

  -- A delete: nothing stands under the key, and the answer is what stood there.
  abbrev pub spec_delete :
      Item → Option String → Contents → Result DynamoDbError (Option Item) × Contents
  spec_delete item condition c = spec_remove c (spec_key condition item c)

  abbrev pub spec_plan :
      Item → String → Option String → Contents → Result DynamoDbError (String × Item)
  spec_plan key_item update_expression condition c = key_of c key_item >>= λ key.
      check_condition parsers float ctx condition (unwrap_or (c.stored key) key_item) >>= λ _.
      lift (parsers.parse_update_expression update_expression) >>= λ update.
      updated parsers float (apply_update float ctx update (unwrap_or (c.stored key) key_item))
      >>= λ item. ok (key, item)

  abbrev pub spec_change :
      ReturnValues
      → Contents
      → Result DynamoDbError (String × Item)
      → Result DynamoDbError (Option Item) × Contents
  spec_change return_values c (err e) = (err e, c)
  spec_change return_values c (ok (key, item)) =
      (ok (returned parsers float return_values (c.stored key) item), changed key (some item) c)

  -- An update: the changed item, or the key with the update applied, stands under the key.
  abbrev pub spec_update :
      Item
      → String
      → Option String
      → ReturnValues
      → Contents
      → Result DynamoDbError (Option Item) × Contents
  spec_update key_item update_expression condition return_values c =
      spec_change return_values c (spec_plan key_item update_expression condition c)

  store_item-spec :
      (item : Item) (table : Table) (plan : Result DynamoDbError String)
      → (reply (store_item parsers float item table plan)
          ≡ reply (spec_write item (contents table) plan))
        × (contents (state (store_item parsers float item table plan))
            ≡ state (spec_write item (contents table) plan))
  unfolding store_item
  store_item-spec item table (err e) = (refl, refl)
  store_item-spec item table (ok key) =
      (refl, contents-put key item (get key table.items) (some item) table)

  contents_absent :
      (key : String) (table : Table)
      → get key table.items ≡ none
      → contents table ≡ changed key none (contents table)
  contents_absent key table e =
      contents_eq table table _ refl (λ other. ground (arith, eq_iff key other))

  remove_stored-spec :
      (table : Table) (plan : Result DynamoDbError String)
      → (reply (remove_stored parsers float table plan) ≡ reply (spec_remove (contents table) plan))
        × (contents (state (remove_stored parsers float table plan))
            ≡ state (spec_remove (contents table) plan))
  unfolding remove_stored
  remove_stored-spec table (err e) = (refl, refl)
  remove_stored-spec table (ok key) = elim (Option-cases (get key table.items)) [
    | inl e ↦ rw e (refl, contents_absent key table e)
    | inr (old, e) ↦ rw e (refl, contents-remove key (some old) none table)
  ]

  store_update-spec :
      (return_values : ReturnValues) (table : Table) (plan : Result DynamoDbError (String × Item))
      → (reply (store_update parsers float return_values table plan)
          ≡ reply (spec_change return_values (contents table) plan))
        × (contents (state (store_update parsers float return_values table plan))
            ≡ state (spec_change return_values (contents table) plan))
  unfolding store_update
  store_update-spec return_values table (err e) = (refl, refl)
  store_update-spec return_values table (ok (key, item)) =
      (refl, contents-put key item (get key table.items) (some item) table)

  -- A put on the store answers as the specification does and changes the view as it does: the
  -- indexes, the order of the entries and the other tables play no part. It is the condition of
  -- the put, on the item that stands there or else on an empty one, that decides.
  pub view-put_item :
      (table_name : String) (item : Item) (condition : Option String) (s : DynamoDbStorage)
      → (reply (put_item parsers float ctx table_name item condition s)
          ≡ reply (within table_name (spec_put item condition) (view s)))
        × (view (state (put_item parsers float ctx table_name item condition s))
            ≡ state (within table_name (spec_put item condition) (view s)))
  unfolding put_item
  view-put_item table_name item condition s =
      with_table-within table_name _ (spec_put item condition)
        (λ table. (store_item-spec item table (spec_key condition item (contents table))).0)
        (λ table. (store_item-spec item table (spec_key condition item (contents table))).1) s

  -- A delete on the store answers as the specification does and changes the view as it does.
  pub view-delete_item :
      (table_name : String) (key_item : Item) (condition : Option String) (s : DynamoDbStorage)
      → (reply (delete_item parsers float ctx table_name key_item condition s)
          ≡ reply (within table_name (spec_delete key_item condition) (view s)))
        × (view (state (delete_item parsers float ctx table_name key_item condition s))
            ≡ state (within table_name (spec_delete key_item condition) (view s)))
  unfolding delete_item
  view-delete_item table_name key_item condition s =
      with_table-within table_name _ (spec_delete key_item condition)
        (λ table. (remove_stored-spec table (spec_key condition key_item (contents table))).0)
        (λ table. (remove_stored-spec table (spec_key condition key_item (contents table))).1) s

  -- An update on the store answers as the specification does and changes the view as it does.
  pub view-update_item :
      (table_name : String) (key_item : Item) (update_expression : String)
      (condition : Option String) (return_values : ReturnValues) (s : DynamoDbStorage)
      → (reply (
            update_item parsers float ctx table_name key_item update_expression condition
              return_values s)
          ≡ reply (
              within table_name
                (spec_update key_item update_expression condition return_values)
                (view s)))
        × (view (
              state (
                update_item parsers float ctx table_name key_item update_expression condition
                  return_values s))
            ≡ state (
                within table_name
                  (spec_update key_item update_expression condition return_values)
                  (view s)))
  unfolding update_item
  view-update_item table_name key_item update_expression condition return_values s =
      with_table-within table_name _
        (spec_update key_item update_expression condition return_values)
        (λ table.
          (store_update-spec return_values table
            (spec_plan key_item update_expression condition (contents table))).0)
        (λ table.
          (store_update-spec return_values table
            (spec_plan key_item update_expression condition (contents table))).1)
        s
