-- ===== src/DynamoDb/Storage/Step.antt =====
-- The operations of ruststack-dynamodb/src/storage.rs as steps, and the secondary indexes along them.
use ruststack.Prelude.{
  ℕ, ◌≡◌, String, Option, some, List, [], arith, ◌==◌, string_eq, Bool-cases, Option-cases, inl,
  inr,
}
use ruststack.Dict.{get, put, contains_key, get-put, get-remove}
use ruststack.Result.{Result, ok, err, state}
use ruststack.Reach.{Reach, Reach_induction}
use ruststack.DynamoDb.Values.{Item, Float}
use ruststack.DynamoDb.Conditions.{ExpressionContext}
use ruststack.DynamoDb.Schema.{
  DynamoDbError, KeySchemaElement, AttributeDefinition, ProvisionedThroughput, GlobalSecondaryIndex,
  LocalSecondaryIndex, ReturnValues,
}
use ruststack.DynamoDb.Table.{Table}
use ruststack.DynamoDb.Table.Indexed.{
  IsIndexed, put-IsIndexed, remove-IsIndexed, new_table-IsIndexed,
}
use ruststack.DynamoDb.Storage.{
  Parsers, DynamoDbStorage, new, unwrap_or, create_table, delete_table, with_table,
}
use ruststack.DynamoDb.Storage.Items.{
  store_item, put_item, remove_stored, delete_item, store_update, update_item,
}

-- In every table the indexes list exactly the items.
pub record IsValid (s : DynamoDbStorage) : Type 0 where
  pub indexed : (name : String) (table : Table) → get name s.tables ≡ some table → IsIndexed table

module _ (parsers : Parsers) (float : Float) where
  pub data Step (s : DynamoDbStorage) : DynamoDbStorage → Type 0 where
    creates :
        (now : ℕ) (name : String) (key_schema : List KeySchemaElement)
        (definitions : List AttributeDefinition) (throughput : ProvisionedThroughput)
        (gsis : Option (List GlobalSecondaryIndex)) (lsis : Option (List LocalSecondaryIndex))
        → Step s (state (create_table now name key_schema definitions throughput gsis lsis s))
    drops : (name : String) → Step s (state (delete_table name s))
    puts :
        (ctx : ExpressionContext) (name : String) (item : Item) (condition : Option String)
        → Step s (state (put_item parsers float ctx name item condition s))
    deletes :
        (ctx : ExpressionContext) (name : String) (key : Item) (condition : Option String)
        → Step s (state (delete_item parsers float ctx name key condition s))
    updates :
        (ctx : ExpressionContext) (name : String) (key : Item) (update : String)
        (condition : Option String) (return_values : ReturnValues)
        → Step s (state (update_item parsers float ctx name key update condition return_values s))

  put_table-IsValid :
      (s : DynamoDbStorage) (name : String) (table : Table)
      → IsValid s
      → IsIndexed table
      → IsValid (record { tables = put name table s.tables })
  put_table-IsValid s name table v h = record {
    indexed = λ other found e. elim (Bool-cases (name == other)) [
      | inl p ↦ same (ground (arith, get-put name other table s.tables)) h
      | inr p ↦ v.indexed other found (ground (arith, get-put name other table s.tables))
    ];
  }
    where
      same : {t u : Table} → t ≡ u → IsIndexed t → IsIndexed u
      same p h = rw (← p) h

  with_table-IsValid :
      {A : Type 0} (name : String) (f : Table → Result DynamoDbError A × Table)
      (s : DynamoDbStorage)
      → ((table : Table) → IsIndexed table → IsIndexed (state (f table)))
      → IsValid s
      → IsValid (state (with_table name f s))
  unfolding with_table
  with_table-IsValid name f s keep v = elim (Option-cases (get name s.tables)) [
    | inl e ↦ rw e v
    | inr (table, e) ↦ rw e (put_table-IsValid s name _ v (keep table (v.indexed name table e)))
  ]

  store_item-IsIndexed :
      (item : Item) (plan : Result DynamoDbError String) (table : Table)
      → IsIndexed table
      → IsIndexed (state (store_item parsers float item table plan))
  unfolding store_item
  store_item-IsIndexed item (err e) table h = h
  store_item-IsIndexed item (ok key) table h = put-IsIndexed table h key item

  remove_stored-IsIndexed :
      (plan : Result DynamoDbError String) (table : Table)
      → IsIndexed table
      → IsIndexed (state (remove_stored parsers float table plan))
  unfolding remove_stored
  remove_stored-IsIndexed (err e) table h = h
  remove_stored-IsIndexed (ok key) table h = elim (Option-cases (get key table.items)) [
    | inl e ↦ rw e h
    | inr (old, e) ↦ rw e (remove-IsIndexed table h key old e)
  ]

  store_update-IsIndexed :
      (return_values : ReturnValues) (plan : Result DynamoDbError (String × Item)) (table : Table)
      → IsIndexed table
      → IsIndexed (state (store_update parsers float return_values table plan))
  unfolding store_update
  store_update-IsIndexed return_values (err e) table h = h
  store_update-IsIndexed return_values (ok (key, item)) table h = put-IsIndexed table h key item

  create_table-IsValid :
      (s : DynamoDbStorage) (now : ℕ) (name : String) (key_schema : List KeySchemaElement)
      (definitions : List AttributeDefinition) (throughput : ProvisionedThroughput)
      (gsis : Option (List GlobalSecondaryIndex)) (lsis : Option (List LocalSecondaryIndex))
      → IsValid s
      → IsValid (state (create_table now name key_schema definitions throughput gsis lsis s))
  unfolding create_table
  create_table-IsValid s now name key_schema definitions throughput gsis lsis v =
      elim (Bool-cases (contains_key name s.tables)) [
        | inl e ↦ rw e v
        | inr e ↦ rw e (
            put_table-IsValid s name _ v
              (new_table-IsIndexed _ (unwrap_or gsis []) (unwrap_or lsis [])))
      ]

  delete_table-IsValid :
      (s : DynamoDbStorage) (name : String) → IsValid s → IsValid (state (delete_table name s))
  unfolding delete_table
  delete_table-IsValid s name v = elim (Option-cases (get name s.tables)) [
    | inl e ↦ rw e v
    | inr (table, e) ↦ rw e (record {
      indexed =
          λ other found f. v.indexed other found (ground (arith, get-remove name other s.tables));
    })
  ]

  Step-IsValid : (s t : DynamoDbStorage) → Step s t → IsValid s → IsValid t
  unfolding put_item delete_item update_item
  Step-IsValid s t (creates now name key_schema definitions throughput gsis lsis) v =
      create_table-IsValid s now name key_schema definitions throughput gsis lsis v
  Step-IsValid s t (drops name) v = delete_table-IsValid s name v
  Step-IsValid s t (puts ctx name item condition) v =
      with_table-IsValid name _ s (λ table. store_item-IsIndexed item _ table) v
  Step-IsValid s t (deletes ctx name key condition) v =
      with_table-IsValid name _ s (λ table. remove_stored-IsIndexed _ table) v
  Step-IsValid s t (updates ctx name key update condition return_values) v =
      with_table-IsValid name _ s (λ table. store_update-IsIndexed return_values _ table) v

  new-IsValid : IsValid new
  unfolding get
  new-IsValid = record { indexed = λ name table e. absurd (ground arith) }

  -- After any sequence of operations on a new store, every secondary index of every table lists a
  -- primary key under an index key exactly when the item at that primary key has that index key.
  pub reached_tables-IsValid : (s : DynamoDbStorage) → Reach Step new s → IsValid s
  reached_tables-IsValid s r =
      Reach_induction Step IsValid (λ t u st v. Step-IsValid t u st v) new s new-IsValid r
