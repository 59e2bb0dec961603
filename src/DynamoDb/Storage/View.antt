-- ===== src/DynamoDb/Storage/View.antt =====
-- What a store of ruststack-dynamodb/src/storage.rs holds, as its specification sees it: each table
-- is a key schema and a function from text keys to items, with no indexes and no lists.
use mathlib.Core.Path.{fun_ext}
use ruststack.Prelude.{
  ◌≡◌, refl, ap, String, Option, none, some, List, arith, ◌==◌, string_eq, if◌then◌else◌,
  Bool-cases, Option-cases, inl, inr,
}
use ruststack.Dict.{get, put, remove, get-put, get-remove}
use ruststack.Result.{Result, err, state, reply}
use ruststack.DynamoDb.Values.{Item}
use ruststack.DynamoDb.Schema.{DynamoDbError, resource_not_found, KeySchemaElement}
use ruststack.DynamoDb.Table.{map_option, Table, update_indexes, each_index}
use ruststack.DynamoDb.Storage.{DynamoDbStorage, with_table}

pub record Contents : Type 0 where
  pub schema : List KeySchemaElement
  pub stored : String → Option Item

abbrev pub View : Type 0
View = String → Option Contents

abbrev pub contents : Table → Contents
contents table = record {
  schema = table.description.key_schema;
  stored = λ key. get key table.items;
}

abbrev pub view : DynamoDbStorage → View
view s table_name = map_option contents (get table_name s.tables)

-- The operation of a specification on one table of the view.
abbrev pub at_contents {ℓ} :
    {A : Type ℓ}
    → String
    → (Contents → Result DynamoDbError A × Contents)
    → View
    → Option Contents
    → Result DynamoDbError A × View
at_contents table_name g v none = (err (resource_not_found table_name), v)
at_contents table_name g v (some c) =
    (reply (g c), λ other. if table_name == other then some (state (g c)) else v other)

abbrev pub within {ℓ} :
    {A : Type ℓ}
    → String
    → (Contents → Result DynamoDbError A × Contents)
    → View
    → Result DynamoDbError A × View
within table_name g v = at_contents table_name g v (v table_name)

-- The function, changed at one key.
abbrev pub changed : String → Option Item → Contents → Contents
changed key value c = record c { stored = λ other. if key == other then value else c.stored other }

pub view-put :
    (table_name other : String) (table table' : Table) (c : Contents) (s : DynamoDbStorage)
    → contents table' ≡ c
    → view (record { tables = put table_name table' s.tables }) other
      ≡ (if table_name == other then some c else view s other)
view-put table_name other table table' c s q = elim (Bool-cases (table_name == other)) [
  | inl e ↦ rw (get-put, e) (ap some q)
  | inr e ↦ rw (get-put, e) refl
]

module _ {A : Type 0} (table_name : String) (f : Table → Result DynamoDbError A × Table)
    (g : Contents → Result DynamoDbError A × Contents) where
  -- An operation on tables that agrees with the specification on each table agrees on the store.
  pub with_table-within :
      ((table : Table) → reply (f table) ≡ reply (g (contents table)))
      → ((table : Table) → contents (state (f table)) ≡ state (g (contents table)))
      → (s : DynamoDbStorage)
      → (reply (with_table table_name f s) ≡ reply (within table_name g (view s)))
        × (view (state (with_table table_name f s)) ≡ state (within table_name g (view s)))
  unfolding with_table
  with_table-within p q s = elim (Option-cases (get table_name s.tables)) [
    | inl e ↦ rw e (refl, refl)
    | inr (table, e) ↦ rw e (
      p table,
      fun_ext (λ other. view-put table_name other table (state (f table)) _ s (q table)),
    )
  ]

pub update_indexes_kept :
    (old new : Option Item) (key : String) (table : Table)
    → ((update_indexes old new key table).description ≡ table.description)
      × ((update_indexes old new key table).items ≡ table.items)
unfolding update_indexes each_index
update_indexes_kept none none key table = (refl, refl)
update_indexes_kept none (some item) key table = (refl, refl)
update_indexes_kept (some item) none key table = (refl, refl)
update_indexes_kept (some item) (some new) key table = (refl, refl)

pub contents_eq :
    (t u : Table) (stored : String → Option Item)
    → t.description ≡ u.description
    → ((key : String) → get key t.items ≡ stored key)
    → contents t ≡ record { schema = u.description.key_schema; stored = stored }
contents_eq t u stored d h = λ i. record { schema = (d i).key_schema; stored = λ key. h key i }

-- the contents after an item was stored under a key
pub contents-put :
    (key : String) (item : Item) (old new : Option Item) (table : Table)
    → contents (record (update_indexes old new key table) {
      items = put key item (update_indexes old new key table).items;
    })
      ≡ changed key (some item) (contents table)
contents-put key item old new table =
    let kept = update_indexes_kept old new key table in
    let indexed : Table = update_indexes old new key table in
    contents_eq (record indexed { items = put key item indexed.items }) table _ kept.0
      (λ other.
        ground (arith, get-put key other item (update_indexes old new key table).items, kept.1))

pub contents-remove :
    (key : String) (old new : Option Item) (table : Table)
    → contents (update_indexes old new key (record table { items = remove key table.items }))
      ≡ changed key none (contents table)
contents-remove key old new table =
    let removed : Table = record table { items = remove key table.items } in
    let kept = update_indexes_kept old new key removed in
    contents_eq (update_indexes old new key removed) table _ kept.0
      (λ other. ground (arith, get-remove key other table.items, kept.1))
