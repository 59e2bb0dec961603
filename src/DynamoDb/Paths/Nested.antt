-- ===== src/DynamoDb/Paths/Nested.antt =====
-- What is read at a path after an attribute was set or removed.
use Prim.Native.Char.{code}
use ruststack.Prelude.{
  ◌≡◌, ◌≢◌, refl, ap, ◌∙◌, String, Bool, true, false, Option, none, some, List, [], ◌∷◌, arith,
  string_eq, eq_iff, eq_refl, eqb, if◌then◌else◌, Option-cases, Bool-cases, inl, inr,
}
use ruststack.Dict.{get, put, get-put, get-remove}
use ruststack.DynamoDb.Values.{AttributeValue, m, Item, entries, of_entries, entries-of_entries}
use ruststack.DynamoDb.Paths.{
  split_path, get_parts, get_nested_attribute, or_empty, set_parts, set_nested_attribute, set_from,
  remove_parts, change_found, remove_from, remove_nested_attribute,
}

-- A value other than a map stands where a step of the path is to go down.
unfoldable pub is_blocked : List String → Option AttributeValue → Bool
is_blocked [] current = false
is_blocked (part ∷ parts) none = false
is_blocked (part ∷ parts) (some (m map)) = is_blocked parts (get part (entries map))
is_blocked (part ∷ parts) (some _) = true

abbrev pub blocks : String → Item → Bool
blocks path item = let (first, parts) = split_path path in is_blocked parts (get first item)

get-entries :
    (part : String) (v : AttributeValue) (map : Item)
    → get part (entries (of_entries (put part v map))) ≡ some v
get-entries part v map =
    rw entries-of_entries (ground (arith, get-put part part v map, eq_refl part))

get_parts-none : (parts : List String) (part : String) → get_parts (part ∷ parts) none ≡ none
unfolding get_parts
get_parts-none parts part = refl

get_parts-set_parts :
    (part : String) (parts : List String) (value : AttributeValue) (current : Option AttributeValue)
    → get_parts (part ∷ parts) (some (set_parts part parts value (or_empty current)))
      ≡ (if is_blocked (part ∷ parts) current then none else some value)
unfolding get_parts set_parts is_blocked get
get_parts-set_parts part [] value none = get-entries part value []
get_parts-set_parts part [] value (some (m map)) = get-entries part value (entries map)
get_parts-set_parts part (next ∷ parts) value none =
    ap (get_parts (next ∷ parts)) (get-entries part (set_parts next parts value (or_empty none)) [])
    ∙ get_parts-set_parts next parts value none
get_parts-set_parts part (next ∷ parts) value (some (m map)) =
    ap (get_parts (next ∷ parts)) (get-entries part _ (entries map))
    ∙ get_parts-set_parts next parts value (get part (entries map))
get_parts-set_parts part parts value (some v) = refl

split_path_single : (path first : String) → split_path path ≡ (first, []) → first ≡ path
unfolding split_path
split_path_single String.[] first e = ground arith
split_path_single (String.◌∷◌ c path) first e = elim (Bool-cases (eqb (code c) 46)) [
  | inl d ↦ ground (arith, split_path_single path (split_path path).0)
  | inr d ↦ ground (arith, split_path_single path (split_path path).0)
]

set_from-read :
    (path first : String) (parts : List String) (item : Item) (value : AttributeValue)
    → split_path path ≡ (first, parts)
    → get_parts parts (get first (set_from path first parts item value))
      ≡ (if is_blocked parts (get first item) then none else some value)
unfolding set_from get_parts is_blocked
set_from-read path first [] item value e =
    ground (arith, split_path_single path first e, get-put path first value item, eq_iff path first)
set_from-read path first (part ∷ parts) item value e =
    ap (get_parts (part ∷ parts))
      {y = some (set_parts part parts value (or_empty (get first item)))}
      (ground (
        arith,
        get-put first first (set_parts part parts value (or_empty (get first item))) item,
        eq_refl first,
      ))
    ∙ get_parts-set_parts part parts value (get first item)

pub get-set_from :
    (path first other : String) (parts : List String) (item : Item) (value : AttributeValue)
    → split_path path ≡ (first, parts)
    → first ≢ other
    → get other (set_from path first parts item value) ≡ get other item
unfolding set_from
get-set_from path first other [] item value e d =
    ground (arith, split_path_single path first e, get-put path other value item, eq_iff path other)
get-set_from path first other (part ∷ parts) item value e d = ground (
  arith,
  get-put first other (set_parts part parts value (or_empty (get first item))) item,
  eq_iff first other,
)

-- After a set, the path reads the new value, unless a value other than a map stands in its way:
-- then it reads nothing. A path with another first part reads what it read before.
pub get-set_nested_attribute :
    (item : Item) (path : String) (value : AttributeValue)
    → (get_nested_attribute (set_nested_attribute item path value) path
        ≡ (if blocks path item then none else some value))
      × ((other : String)
          → (split_path path).0 ≢ (split_path other).0
          → get_nested_attribute (set_nested_attribute item path value) other
            ≡ get_nested_attribute item other)
unfolding get_nested_attribute set_nested_attribute
get-set_nested_attribute item path value = (
  set_from-read path (split_path path).0 (split_path path).1 item value refl,
  λ other d. ap (get_parts (split_path other).1) (
      get-set_from path (split_path path).0 (split_path other).0 (split_path path).1 item value refl
        d),
)

get_parts-change_found :
    (part next : String) (parts : List String) (map : Item)
    → ((child : AttributeValue)
        → get_parts (next ∷ parts) (some (remove_parts next parts child)) ≡ none)
    → get_parts
        (next ∷ parts)
        (get part (change_found part (remove_parts next parts) map (get part map)))
      ≡ none
unfolding change_found
get_parts-change_found part next parts map h = elim (Option-cases (get part map)) [
  | inl e ↦ rw e (rw e (get_parts-none parts next))
  | inr (child, e) ↦ rw e (rw (get-put, eq_refl) (h child))
]

get_parts-remove_parts :
    (part : String) (parts : List String) (current : AttributeValue)
    → get_parts (part ∷ parts) (some (remove_parts part parts current)) ≡ none
unfolding get_parts remove_parts
get_parts-remove_parts part [] (m map) =
    rw entries-of_entries (ground (arith, get-remove part part (entries map), eq_refl part))
get_parts-remove_parts part (next ∷ parts) (m map) =
    ap (λ d. get_parts (next ∷ parts) (get part d)) (entries-of_entries _)
    ∙ get_parts-change_found part next parts (entries map) (get_parts-remove_parts next parts)
get_parts-remove_parts part parts v = refl

remove_from-read :
    (path first : String) (parts : List String) (item : Item)
    → split_path path ≡ (first, parts)
    → get_parts parts (get first (remove_from path first parts item)) ≡ none
unfolding remove_from get_parts
remove_from-read path first [] item e =
    ground (arith, split_path_single path first e, get-remove path first item, eq_iff path first)
remove_from-read path first (part ∷ parts) item e =
    get_parts-change_found first part parts item (get_parts-remove_parts part parts)

pub get-remove_from :
    (path first other : String) (parts : List String) (item : Item)
    → split_path path ≡ (first, parts)
    → first ≢ other
    → get other (remove_from path first parts item) ≡ get other item
unfolding remove_from
get-remove_from path first other [] item e d =
    ground (arith, split_path_single path first e, get-remove path other item, eq_iff path other)
get-remove_from path first other (part ∷ parts) item e d = elim (Option-cases (get first item)) [
  | inl f ↦ rw f refl
  | inr (child, f) ↦
      rw f (
        ground
          (arith, get-put first other (remove_parts part parts child) item, eq_iff first other))
]

-- After a removal the path reads nothing; a path with another first part reads what it read before.
pub get-remove_nested_attribute :
    (item : Item) (path : String)
    → (get_nested_attribute (remove_nested_attribute item path) path ≡ none)
      × ((other : String)
          → (split_path path).0 ≢ (split_path other).0
          → get_nested_attribute (remove_nested_attribute item path) other
            ≡ get_nested_attribute item other)
unfolding get_nested_attribute remove_nested_attribute
get-remove_nested_attribute item path = (
  remove_from-read path (split_path path).0 (split_path path).1 item refl,
  λ other d. ap (get_parts (split_path other).1) (
      get-remove_from path (split_path path).0 (split_path other).0 (split_path path).1 item refl
        d),
)
