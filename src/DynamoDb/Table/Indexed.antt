-- ===== src/DynamoDb/Table/Indexed.antt =====
-- The secondary indexes of a table in ruststack-dynamodb/src/storage.rs beside its items.
use ruststack.Prelude.{
  ◌≡◌, refl, String, none, some, List, [], ◌∷◌, arith, ◌==◌, string_eq, eq_refl, contains,
  Bool-cases, Option-cases, inl, inr,
}
use ruststack.Dict.{Dict, get, put, remove, get-put, get-remove}
use ruststack.DynamoDb.Values.{Item}
use ruststack.DynamoDb.Schema.{TableDescription, GlobalSecondaryIndex, LocalSecondaryIndex}
use ruststack.DynamoDb.Table.{
  SecondaryIndex, Table, new_index, new_table, map_option, add_item, remove_item, global_indexes,
  local_indexes, map_values, each_index, update_indexes,
}
use ruststack.DynamoDb.Table.Indexes.{IsInStep, add-IsInStep, remove-IsInStep, IsInStep-get}

-- Every secondary index of the table is in step with its items.
pub record IsIndexed (table : Table) : Type 0 where
  pub global :
      (name : String) (index : SecondaryIndex)
      → get name table.global_secondary_indexes ≡ some index
      → IsInStep table.items index
  pub local :
      (name : String) (index : SecondaryIndex)
      → get name table.local_secondary_indexes ≡ some index
      → IsInStep table.items index

get-map_values :
    (f : SecondaryIndex → SecondaryIndex) (name : String) (indexes : Dict String SecondaryIndex)
    → get name (map_values f indexes) ≡ map_option f (get name indexes)
unfolding map_values get
get-map_values f name [] = refl
get-map_values f name ((j, index) ∷ indexes) = ground (arith, get-map_values f name indexes)

-- The change of each index, and the change of the items that goes with it.
map_values-IsInStep :
    (f : SecondaryIndex → SecondaryIndex) (items items' : Dict String Item)
    (indexes : Dict String SecondaryIndex)
    → ((index : SecondaryIndex) → IsInStep items index → IsInStep items' (f index))
    → ((name : String) (index : SecondaryIndex)
        → get name indexes ≡ some index
        → IsInStep items index)
    → (name : String) (index : SecondaryIndex) → get name (map_values f indexes) ≡ some index
    → IsInStep items' index
unfolding map_values
map_values-IsInStep f items items' indexes step h name index e =
    elim (Option-cases (get name indexes)) [
      | inl n ↦ absurd (ground (arith, get-map_values f name indexes))
      | inr (i, n) ↦ moved (ground (arith, get-map_values f name indexes)) (step i (h name i n))
    ]
  where
    moved : {i : SecondaryIndex} → f i ≡ index → IsInStep items' (f i) → IsInStep items' index
    moved p k = rw (← p) k

each_index-IsIndexed :
    (f : SecondaryIndex → SecondaryIndex) (items' : Dict String Item) (table : Table)
    → ((index : SecondaryIndex) → IsInStep table.items index → IsInStep items' (f index))
    → IsIndexed table
    → IsIndexed (record (each_index f table) { items = items' })
unfolding each_index
each_index-IsIndexed f items' table step h = record {
  global = map_values-IsInStep f table.items items' table.global_secondary_indexes step h.global;
  local = map_values-IsInStep f table.items items' table.local_secondary_indexes step h.local;
}

IsIndexed-get :
    (table : Table) (items' : Dict String Item)
    → ((k : String) → get k table.items ≡ get k items')
    → IsIndexed table
    → IsIndexed (record table { items = items' })
IsIndexed-get table items' e h = record {
  global = λ name index f. IsInStep-get table.items items' index e (h.global name index f);
  local = λ name index f. IsInStep-get table.items items' index e (h.local name index f);
}

module _ (table : Table) (h : IsIndexed table) where
  -- A new item was put where there was none.
  added-IsIndexed :
      (k : String) (item : Item)
      → get k table.items ≡ none
      → IsIndexed (record (each_index (add_item item k) table) { items = put k item table.items })
  added-IsIndexed k item e =
      each_index-IsIndexed (add_item item k) (put k item table.items) table
        (λ index step. add-IsInStep table.items index step k item e) h

  removed-IsIndexed :
      (k : String) (old : Item)
      → get k table.items ≡ some old
      → IsIndexed (record (each_index (remove_item old k) table) { items = remove k table.items })
  removed-IsIndexed k old e =
      each_index-IsIndexed (remove_item old k) (remove k table.items) table
        (λ index step. remove-IsInStep table.items index step k old e) h

module _ (table : Table) (h : IsIndexed table) where
  -- Whatever stood under the key, the indexes follow when an item is put there.
  pub put-IsIndexed :
      (k : String) (item : Item)
      → let indexed = update_indexes (get k table.items) (some item) k table in
        IsIndexed (record indexed { items = put k item indexed.items })
  unfolding update_indexes
  put-IsIndexed k item = elim (Option-cases (get k table.items)) [
    | inl e ↦ rw e (added-IsIndexed table h k item e)
    | inr (old, e) ↦
        let cleared : Table = record (each_index (remove_item old k) table) {
          items = remove k table.items;
        } in
        rw e (
          IsIndexed-get
            (record (each_index (add_item item k) cleared) { items = put k item cleared.items })
            (put k item table.items)
            (λ q. ground (
              arith,
              get-put k q item (remove k table.items),
              get-put k q item table.items,
              get-remove k q table.items,
            ))
            (added-IsIndexed cleared (removed-IsIndexed table h k old e) k item
              (ground (arith, get-remove k k table.items, eq_refl k))))
  ]

  -- The indexes follow when the item that stands under the key is removed.
  pub remove-IsIndexed :
      (k : String) (old : Item)
      → get k table.items ≡ some old
      → IsIndexed (update_indexes (some old) none k (record table { items = remove k table.items }))
  unfolding update_indexes
  remove-IsIndexed k old e = removed-IsIndexed table h k old e

-- The indexes of a new table are empty.
abbrev AllEmpty : Dict String SecondaryIndex → Type 0
AllEmpty indexes =
    (name : String) (index : SecondaryIndex) → get name indexes ≡ some index → index.items ≡ []

put-AllEmpty :
    (name : String) (index : SecondaryIndex) (indexes : Dict String SecondaryIndex)
    → index.items ≡ []
    → AllEmpty indexes
    → AllEmpty (put name index indexes)
put-AllEmpty name index indexes e h j i f = elim (Bool-cases (name == j)) [
  | inl p ↦ empty_of (ground (arith, get-put name j index indexes)) e
  | inr p ↦ h j i (ground (arith, get-put name j index indexes))
]
  where
    empty_of : index ≡ i → index.items ≡ [] → i.items ≡ []
    empty_of q r = rw (← q) r

global_indexes-AllEmpty :
    (indexes : Dict String SecondaryIndex) (gsis : List GlobalSecondaryIndex)
    → AllEmpty indexes
    → AllEmpty (global_indexes indexes gsis)
global_indexes-AllEmpty indexes [] h = h
global_indexes-AllEmpty indexes (gsi ∷ gsis) h =
    global_indexes-AllEmpty (put gsi.index_name (new_index gsi.key_schema gsi.projection) indexes)
      gsis (put-AllEmpty gsi.index_name (new_index gsi.key_schema gsi.projection) indexes refl h)

local_indexes-AllEmpty :
    (indexes : Dict String SecondaryIndex) (lsis : List LocalSecondaryIndex)
    → AllEmpty indexes
    → AllEmpty (local_indexes indexes lsis)
local_indexes-AllEmpty indexes [] h = h
local_indexes-AllEmpty indexes (lsi ∷ lsis) h =
    local_indexes-AllEmpty (put lsi.index_name (new_index lsi.key_schema lsi.projection) indexes)
      lsis (put-AllEmpty lsi.index_name (new_index lsi.key_schema lsi.projection) indexes refl h)

empty-IsInStep : (index : SecondaryIndex) → index.items ≡ [] → IsInStep [] index
unfolding contains get
empty-IsInStep index e = record { lists = λ ik q. rw e refl }

none-AllEmpty : AllEmpty []
unfolding get
none-AllEmpty name index e = cc

pub new_table-IsIndexed :
    (description : TableDescription) (gsis : List GlobalSecondaryIndex)
    (lsis : List LocalSecondaryIndex)
    → IsIndexed (new_table description gsis lsis)
unfolding new_table
new_table-IsIndexed description gsis lsis = record {
  global = λ name index e.
      empty-IsInStep index (global_indexes-AllEmpty [] gsis none-AllEmpty name index e);
  local = λ name index e.
      empty-IsInStep index (local_indexes-AllEmpty [] lsis none-AllEmpty name index e);
}
