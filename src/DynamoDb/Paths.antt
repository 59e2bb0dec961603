-- ===== src/DynamoDb/Paths.antt =====
-- ruststack-dynamodb/src/expression.rs: nested attributes, read, set and removed by dotted paths.
pub mod Nested
use Prim.Native.Char.{Char, code}
use Prim.Native.String
use ruststack.Prelude.{ℕ, String, Option, none, some, List, [], ◌∷◌, eqb, if◌then◌else◌, string_eq}
use ruststack.Dict.{get, put, remove}
use ruststack.DynamoDb.Values.{AttributeValue, m, Attributes, end, Item, entries, of_entries}

-- The code of `.`.
abbrev dot : ℕ
dot = 46

-- `path.split('.')`: the first part and the others
unfoldable pub split_path : String → String × List String
split_path String.[] = (String.[], [])
split_path (String.◌∷◌ c path) =
    let (part, parts) = split_path path in
    if eqb (code c) dot then (String.[], part ∷ parts) else (String.◌∷◌ c part, parts)

-- the loop over the parts after the first
unfoldable pub get_parts : List String → Option AttributeValue → Option AttributeValue
get_parts [] current = current
get_parts (part ∷ parts) (some (m map)) = get_parts parts (get part (entries map))
get_parts (part ∷ parts) _ = none

unfoldable pub get_nested_attribute : Item → String → Option AttributeValue
unfolding get_parts split_path
get_nested_attribute item path =
    let (first, parts) = split_path path in get_parts parts (get first item)

-- the value that `contains_key` and `insert` of an empty map leave for `get_mut`
abbrev pub or_empty : Option AttributeValue → AttributeValue
or_empty none = m end
or_empty (some v) = v

-- What the loop of `set_nested_attribute` leaves of `current`: the part and the parts after it.
unfoldable pub set_parts : String → List String → AttributeValue → AttributeValue → AttributeValue
set_parts part [] value (m map) = m (of_entries (put part value (entries map)))
set_parts part (next ∷ parts) value (m map) = m (
    of_entries
      (put part (set_parts next parts value (or_empty (get part (entries map)))) (entries map)))
set_parts part parts value current = current

unfoldable pub set_from : String → String → List String → Item → AttributeValue → Item
unfolding set_parts
set_from path first [] item value = put path value item
set_from path first (part ∷ parts) item value =
    put first (set_parts part parts value (or_empty (get first item))) item

unfoldable pub set_nested_attribute : Item → String → AttributeValue → Item
unfolding set_from split_path
set_nested_attribute item path value =
    let (first, parts) = split_path path in set_from path first parts item value

-- `get_mut` with a change of what it finds
unfoldable pub change_found :
    String → (AttributeValue → AttributeValue) → Item → Option AttributeValue → Item
change_found part f map none = map
change_found part f map (some child) = put part (f child) map

-- What the loop of `remove_nested_attribute` leaves of `current`; a missing part ends it.
unfoldable pub remove_parts : String → List String → AttributeValue → AttributeValue
unfolding change_found
remove_parts part [] (m map) = m (of_entries (remove part (entries map)))
remove_parts part (next ∷ parts) (m map) = m (
    of_entries (change_found part (remove_parts next parts) (entries map) (get part (entries map))))
remove_parts part parts current = current

unfoldable pub remove_from : String → String → List String → Item → Item
unfolding remove_parts change_found
remove_from path first [] item = remove path item
remove_from path first (part ∷ parts) item =
    change_found first (remove_parts part parts) item (get first item)

unfoldable pub remove_nested_attribute : Item → String → Item
unfolding remove_from split_path
remove_nested_attribute item path =
    let (first, parts) = split_path path in remove_from path first parts item
