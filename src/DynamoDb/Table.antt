-- ===== src/DynamoDb/Table.antt =====
-- ruststack-dynamodb/src/storage.rs: `SecondaryIndex` and `Table`, with the text keys under which
-- items stand.
pub mod Indexes
pub mod Indexed
pub mod Copies
use Prim.Native.String
use ruststack.Prelude.{
  ℕ, String, Bool, true, false, not, Option, none, some, List, [], ◌∷◌, ◌++◌, ◌==◌, string_eq,
  keep_if, if◌then◌else◌,
}
use ruststack.Dict.{Dict, empty, get, put}
use ruststack.Result.{Result, ok, err, ok_or, ◌>>=◌}
use ruststack.DynamoDb.Values.{AttributeValue, s, n, b, Item}
use ruststack.DynamoDb.Schema.{
  DynamoDbError, validation_error, KeySchemaElement, KeyType, Projection, GlobalSecondaryIndex,
  LocalSecondaryIndex, TableDescription,
}

pub record SecondaryIndex : Type 0 where
  pub key_schema : List KeySchemaElement
  pub projection : Projection
  pub items : Dict String (List String)

-- `SecondaryIndex::new`
abbrev pub new_index : List KeySchemaElement → Projection → SecondaryIndex
new_index key_schema projection = record {
  key_schema = key_schema;
  projection = projection;
  items = [];
}

pub record Table : Type 0 where
  pub description : TableDescription
  pub items : Dict String Item
  pub global_secondary_indexes : Dict String SecondaryIndex
  pub local_secondary_indexes : Dict String SecondaryIndex

abbrev pub map_option {ℓ κ} : {A : Type ℓ} {B : Type κ} → (A → B) → Option A → Option B
map_option f none = none
map_option f (some a) = some (f a)

-- The text of a key attribute; the other types have none.
abbrev pub key_str : AttributeValue → Option String
key_str (s text) = some text
key_str (n text) = some text
key_str (b text) = some text
key_str _ = none

-- `key_parts.join("#")`
unfoldable pub join : List String → String
join [] = ""
join (part ∷ []) = part
join (part ∷ next ∷ parts) = String.◌++◌ part (String.◌++◌ "#" (join (next ∷ parts)))

-- `?` on an option
infixl 5 ◌>>=?◌
abbrev pub ◌>>=?◌ {ℓ κ} : {A : Type ℓ} {B : Type κ} → Option A → (A → Option B) → Option B
none >>=? f = none
some a >>=? f = f a

-- the loop of `get_index_key`
unfoldable pub index_parts : List KeySchemaElement → Item → Option (List String)
index_parts [] item = some []
index_parts (key_elem ∷ schema) item = get key_elem.attribute_name item >>=? λ attr.
    key_str attr >>=? λ part. index_parts schema item >>=? λ parts. some (part ∷ parts)

unfoldable pub get_index_key : SecondaryIndex → Item → Option String
unfolding index_parts join
get_index_key index item = index_parts index.key_schema item >>=? λ parts. some (join parts)

abbrev pub listed : Option (List String) → List String
listed none = []
listed (some keys) = keys

abbrev pub add_found : SecondaryIndex → String → Option String → SecondaryIndex
add_found index primary_key none = index
add_found index primary_key (some index_key) = record index {
  items = put index_key (listed (get index_key index.items) ++ primary_key ∷ []) index.items;
}

unfoldable pub add_item : Item → String → SecondaryIndex → SecondaryIndex
unfolding get_index_key
add_item item primary_key index = add_found index primary_key (get_index_key index item)

abbrev pub remove_listed : SecondaryIndex → String → String → Option (List String) → SecondaryIndex
remove_listed index primary_key index_key none = index
remove_listed index primary_key index_key (some keys) = record index {
  items = put index_key (keep_if (λ k. not (k == primary_key)) keys) index.items;
}

abbrev pub remove_found : SecondaryIndex → String → Option String → SecondaryIndex
remove_found index primary_key none = index
remove_found index primary_key (some index_key) =
    remove_listed index primary_key index_key (get index_key index.items)

unfoldable pub remove_item : Item → String → SecondaryIndex → SecondaryIndex
unfolding get_index_key
remove_item item primary_key index = remove_found index primary_key (get_index_key index item)

-- The loops of `Table::new`; a later index of the same name replaces an earlier one.
abbrev pub global_indexes :
    Dict String SecondaryIndex → List GlobalSecondaryIndex → Dict String SecondaryIndex
global_indexes indexes [] = indexes
global_indexes indexes (gsi ∷ gsis) =
    global_indexes (put gsi.index_name (new_index gsi.key_schema gsi.projection) indexes) gsis

abbrev pub local_indexes :
    Dict String SecondaryIndex → List LocalSecondaryIndex → Dict String SecondaryIndex
local_indexes indexes [] = indexes
local_indexes indexes (lsi ∷ lsis) =
    local_indexes (put lsi.index_name (new_index lsi.key_schema lsi.projection) indexes) lsis

unfoldable pub new_table :
    TableDescription → List GlobalSecondaryIndex → List LocalSecondaryIndex → Table
new_table description gsis lsis = record {
  description = description;
  items = [];
  global_secondary_indexes = global_indexes [] gsis;
  local_secondary_indexes = local_indexes [] lsis;
}

-- the loop of `get_key`
unfoldable pub key_parts : List KeySchemaElement → Item → Result DynamoDbError (List String)
key_parts [] item = ok []
key_parts (key_elem ∷ schema) item = do
  attr ←
      ok_or (get key_elem.attribute_name item)
        (validation_error (String.◌++◌ "Missing key attribute: " key_elem.attribute_name))
  part ←
      ok_or (key_str attr)
        (validation_error (String.◌++◌ "Invalid key attribute type for " key_elem.attribute_name))
  parts ← key_parts schema item
  ok (part ∷ parts)

unfoldable pub get_key : Table → Item → Result DynamoDbError String
unfolding key_parts join
get_key table item = do parts ← key_parts table.description.key_schema item; ok (join parts)

-- `if let Some(attr) = item.get(name) { key.insert(name, attr.clone()) }`
abbrev pub copy_attribute : String → Option AttributeValue → Item → Item
copy_attribute name none key = key
copy_attribute name (some attr) key = put name attr key

abbrev pub extract_loop : List KeySchemaElement → Item → Item → Item
extract_loop [] item key = key
extract_loop (key_elem ∷ schema) item key =
    extract_loop schema item
      (copy_attribute key_elem.attribute_name (get key_elem.attribute_name item) key)

unfoldable pub extract_key : Table → Item → Item
extract_key table item = extract_loop table.description.key_schema item []

abbrev pub is_range : KeyType → Bool
is_range KeyType.range = true
is_range KeyType.hash = false

unfoldable pub find_range : List KeySchemaElement → Option String
find_range [] = none
find_range (k ∷ schema) = if is_range k.key_type then some k.attribute_name else find_range schema

unfoldable pub range_key_name : Table → Option String
unfolding find_range
range_key_name table = find_range table.description.key_schema

-- `for index in indexes.values()`
unfoldable pub map_values {ℓ κ μ} :
    {K : Type ℓ} {V : Type κ} {W : Type μ} → (V → W) → Dict K V → Dict K W
map_values f [] = []
map_values f ((k, v) ∷ d) = (k, f v) ∷ map_values f d

unfoldable pub each_index : (SecondaryIndex → SecondaryIndex) → Table → Table
unfolding map_values
each_index f table = record table {
  global_secondary_indexes = map_values f table.global_secondary_indexes;
  local_secondary_indexes = map_values f table.local_secondary_indexes;
}

abbrev pub remove_old : Option Item → String → Table → Table
remove_old none primary_key table = table
remove_old (some old) primary_key table = each_index (remove_item old primary_key) table

abbrev pub add_new : Option Item → String → Table → Table
add_new none primary_key table = table
add_new (some item) primary_key table = each_index (add_item item primary_key) table

unfoldable pub update_indexes : Option Item → Option Item → String → Table → Table
unfolding each_index add_item remove_item
update_indexes old_item new_item primary_key table =
    add_new new_item primary_key (remove_old old_item primary_key table)
