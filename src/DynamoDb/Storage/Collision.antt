-- ===== src/DynamoDb/Storage/Collision.antt =====
-- The text keys of ruststack-dynamodb/src/storage.rs, joined by `#`, of two items.
use Prim.Native.String
use text.Mathlib.TextLemmas.{append_assoc}
use ruststack.Prelude.{◌≡◌, refl, ap, ◌∙◌, String, none, some, [], ◌∷◌, arith, string_eq, eq_refl}
use ruststack.Dict.{get, put, get-put}
use ruststack.Result.{ok, state, reply}
use ruststack.DynamoDb.Values.{Item, Float, s}
use ruststack.DynamoDb.Conditions.{ExpressionContext}
use ruststack.DynamoDb.Schema.{KeySchemaElement}
use ruststack.DynamoDb.Table.{Table, get_key, key_parts, join, update_indexes}
use ruststack.DynamoDb.Storage.View.{update_indexes_kept}
use ruststack.DynamoDb.Storage.{Parsers, DynamoDbStorage}
use ruststack.DynamoDb.Storage.Items.{put_item}

-- Two texts with the separator of `get_key` between them.
abbrev pub joined : String → String → String
joined left right = String.◌++◌ left (String.◌++◌ "#" right)

joined_assoc : (x y z : String) → joined (joined x y) z ≡ joined x (joined y z)
joined_assoc x y z =
    append_assoc x (String.◌++◌ "#" y) (String.◌++◌ "#" z)
    ∙ ap (String.◌++◌ x) (append_assoc "#" y (String.◌++◌ "#" z))

module _ (table : Table) (a b : KeySchemaElement) (item : Item) (x y : String) where
  get_key_two :
      table.description.key_schema ≡ a ∷ b ∷ []
      → get a.attribute_name item ≡ some (s x)
      → get b.attribute_name item ≡ some (s y)
      → get_key table item ≡ ok (joined x y)
  unfolding get_key key_parts join
  get_key_two e f g = rw (e, f, g) refl

abbrev pub stored : Table → String → Item → Table
stored table key item =
    let indexed = update_indexes (get key table.items) (some item) key table in
    record indexed { items = put key item indexed.items }

module _ (parsers : Parsers) (float : Float) (ctx : ExpressionContext) (name : String) where
  put_item_unconditional :
      (item : Item) (store : DynamoDbStorage) (table : Table) (key : String)
      → get name store.tables ≡ some table
      → get_key table item ≡ ok key
      → put_item parsers float ctx name item none store ≡ (
        ok (get key table.items),
        record { tables = put name (stored table key item) store.tables },
      )
  unfolding put_item
  put_item_unconditional item store table key e f = rw (e, f) refl

  -- Where the key schema of a table has two attributes, the second put of two items whose keys are
  -- the pairs (x#y, z) and (x, y#z) answers the first item: it replaces it, though the keys differ.
  pub put_item_collision :
      (store : DynamoDbStorage) (table : Table) (a b : KeySchemaElement) (item other : Item)
      (x y z : String)
      → get name store.tables ≡ some table
      → table.description.key_schema ≡ a ∷ b ∷ []
      → get a.attribute_name item ≡ some (s (joined x y))
      → get b.attribute_name item ≡ some (s z)
      → get a.attribute_name other ≡ some (s x)
      → get b.attribute_name other ≡ some (s (joined y z))
      → reply (
          put_item parsers float ctx name other none
            (state (put_item parsers float ctx name item none store)))
        ≡ ok (some item)
  put_item_collision store table a b item other x y z t e f g h k =
      let key : String = joined x (joined y z) in
      let next : Table = stored table key item in
      let kept = update_indexes_kept (get key table.items) (some item) key table in
      let first =
        put_item_unconditional item store table key t
          (get_key_two table a b item (joined x y) z e f g ∙ ap ok (joined_assoc x y z)) in
      let second =
        put_item_unconditional other (record { tables = put name next store.tables }) next key
          (ground (arith, get-put name name next store.tables, eq_refl name))
          (get_key_two next a b other x (joined y z) (ap (λ d. d.key_schema) kept.0 ∙ e) h k) in
      rw (first, second)
        (ground (
          arith,
          get-put key key item (update_indexes (get key table.items) (some item) key table).items,
          eq_refl key,
        ))
