-- ===== src/DynamoDb/Query/Outcomes.antt =====
-- The parts of a query or a scan in ruststack-dynamodb/src/storage.rs: what they answer, unless they
-- raise an error, and the items that they select.
use ruststack.Prelude.{
  ℕ, zero, suc, ◌≢◌, refl, String, Bool, true, false, Option, none, some, List, [], ◌∷◌, arith, ltb,
  length, Bool-cases, inl, inr, string_eq, ◌≡◌, ◌==◌,
}
use ruststack.Dict.{Dict, get, values}
use ruststack.Result.{Result, ok, err, ok_or, ◌>>=◌}
use ruststack.DynamoDb.Values.{Item}
use ruststack.DynamoDb.Conditions.{Failure, raised, panicked}
use ruststack.DynamoDb.Schema.{DynamoDbError, expression, KeySchemaElement}
use ruststack.DynamoDb.Table.{Table, key_parts, key_str, get_key}
use ruststack.DynamoDb.Storage.{lift}
use ruststack.DynamoDb.Parser.Safety.{Answers}
use ruststack.DynamoDb.Sort.Order.{IsAmong, IsWithin, IsWithin-cons, IsWithin-append}
use ruststack.DynamoDb.Query.{
  push_found, items_at, index_items, source_items, or_else, kept, keep_holding, skip_to, limit_to,
  page,
}

-- A result of an operation that holds of what it answers, and is no panic.
abbrev pub Holds : {A : Type 0} → (A → Type 0) → Result DynamoDbError A → Type 0
Holds P (ok a) = P a
Holds P (err e) = e ≢ expression panicked

abbrev pub Any : {A : Type 0} → A → Type 0
Any a = Unit {0}

pub Holds-bind :
    {A B : Type 0} (P : A → Type 0) (Q : B → Type 0) (r : Result DynamoDbError A)
    (f : A → Result DynamoDbError B)
    → Holds P r
    → ((a : A) → P a → Holds Q (f a))
    → Holds Q (r >>= f)
Holds-bind P Q (ok a) f h k = k a h
Holds-bind P Q (err e) f h k = h

pub Holds-safe :
    {A : Type 0} (P : A → Type 0) (r : Result DynamoDbError A)
    → Holds P r
    → r ≢ err (expression panicked)
Holds-safe P (ok a) h = λ p. ground arith
Holds-safe P (err e) h = λ p. h (ground arith)

pub lift-Holds :
    {A : Type 0} (P : A → Type 0) (r : Result Failure A) → Answers P r → Holds P (lift r)
lift-Holds P (ok a) h = h
lift-Holds P (err e) h = λ p. h (ground arith)

pub ok_or-Holds :
    {A : Type 0} (o : Option A) (e : DynamoDbError)
    → e ≢ expression panicked
    → Holds Any (ok_or o e)
ok_or-Holds none e h = h
ok_or-Holds (some a) e h = tt

-- The items are among those that the table holds.
abbrev pub IsHeld : Table → List Item → Type 0
IsHeld table items = IsWithin items (values table.items)

kept-Answers :
    (item : Item) (items : List Item) (test : Result Failure Bool)
    (rest : Result Failure (List Item))
    → test ≢ err panicked
    → Answers (λ kept_items. IsWithin kept_items items) rest
    → Answers (λ kept_items. IsWithin kept_items (item ∷ items)) (kept item test rest)
kept-Answers item items (ok true) (ok rest) h k =
    λ x m. elim m [ inl e ↦ inl e | inr n ↦ inr (k x n) ]
kept-Answers item items (ok true) (err e) h k = k
kept-Answers item items (ok false) (ok rest) h k = λ x m. inr (k x m)
kept-Answers item items (ok false) (err e) h k = k
kept-Answers item items (err (raised e)) (ok rest) h k = λ x m. inr (k x m)
kept-Answers item items (err (raised e)) (err f) h k = k
kept-Answers item items (err panicked) rest h k = absurd (h refl)

pub keep_holding-Answers :
    (test : Item → Result Failure Bool) (items : List Item)
    → ((item : Item) → test item ≢ err panicked)
    → Answers (λ kept_items. IsWithin kept_items items) (keep_holding test items)
keep_holding-Answers test [] h = λ x m. m
keep_holding-Answers test (item ∷ items) h =
    kept-Answers item items (test item) (keep_holding test items) (h item)
      (keep_holding-Answers test items h)

get-values :
    (stored : Dict String Item) (key : String) (item : Item)
    → get key stored ≡ some item
    → IsAmong item (values stored)
unfolding get
get-values [] key item e = absurd (ground arith)
get-values ((k, found) ∷ stored) key item e = elim (Bool-cases (k == key)) [
  | inl q ↦ inl (ground arith)
  | inr q ↦ inr (get-values stored key item (ground arith))
]

push_found-IsWithin :
    (found : Option Item) (items all_items : List Item)
    → ((item : Item) → found ≡ some item → IsAmong item all_items)
    → IsWithin items all_items
    → IsWithin (push_found found items) all_items
push_found-IsWithin none items all_items h k = k
push_found-IsWithin (some item) items all_items h k =
    IsWithin-cons item items all_items (h item refl) k

items_at-IsWithin :
    (stored : Dict String Item) (keys : List String)
    → IsWithin (items_at stored keys) (values stored)
items_at-IsWithin stored [] = λ x m. absurd m
items_at-IsWithin stored (key ∷ keys) =
    push_found-IsWithin (get key stored) (items_at stored keys) (values stored)
      (get-values stored key) (items_at-IsWithin stored keys)

index_items-IsWithin :
    (stored : Dict String Item) (entries : Dict String (List String))
    → IsWithin (index_items stored entries) (values stored)
index_items-IsWithin stored [] = λ x m. absurd m
index_items-IsWithin stored ((index_key, keys) ∷ entries) =
    IsWithin-append (items_at stored keys) (index_items stored entries) (values stored)
      (items_at-IsWithin stored keys) (index_items-IsWithin stored entries)

pub source_items-Holds :
    (table : Table) (index_name : Option String)
    → Holds (IsHeld table) (source_items table index_name)
unfolding source_items
source_items-Holds table none = λ x m. m
source_items-Holds table (some name) =
    Holds-bind Any (IsHeld table)
      (ok_or
        (or_else (get name table.global_secondary_indexes) (get name table.local_secondary_indexes))
        _)
      _ (ok_or-Holds _ _ (λ p. ground arith))
      (λ index h. index_items-IsWithin table.items index.items)

key_parts-Holds : (schema : List KeySchemaElement) (item : Item) → Holds Any (key_parts schema item)
unfolding key_parts
key_parts-Holds [] item = tt
key_parts-Holds (k ∷ schema) item =
    Holds-bind Any Any (ok_or (get k.attribute_name item) _) _ (ok_or-Holds _ _ (λ p. ground arith))
      (λ attr h.
        Holds-bind Any Any (ok_or (key_str attr) _) _ (ok_or-Holds _ _ (λ p. ground arith))
          (λ part g.
            Holds-bind Any Any (key_parts schema item) _ (key_parts-Holds schema item)
              (λ parts j. tt)))

skip_to-Holds :
    (table : Table) (start_key : Option Item) (items : List Item)
    → Holds Any (skip_to table start_key items)
unfolding skip_to get_key
skip_to-Holds table none items = tt
skip_to-Holds table (some key) items =
    Holds-bind Any Any (get_key table key) _
      (Holds-bind Any Any (key_parts table.description.key_schema key) _
        (key_parts-Holds table.description.key_schema key) (λ parts h. tt))
      (λ k h. tt)

limit_to-Holds :
    (table : Table) (limit : Option ℕ) (items : List Item)
    → limit ≢ some 0
    → Holds Any (limit_to table limit items)
unfolding limit_to
limit_to-Holds table none items h = tt
limit_to-Holds table (some zero) items h = absurd (h refl)
limit_to-Holds table (some (suc lim)) items h = elim (Bool-cases (ltb (suc lim) (length items))) [
  | inl e ↦ rw e tt
  | inr e ↦ rw e tt
]

pub page-Holds :
    (table : Table) (start_key : Option Item) (limit : Option ℕ) (items : List Item)
    → limit ≢ some 0
    → Holds Any (page table start_key limit items)
unfolding page
page-Holds table start_key limit items h =
    Holds-bind Any Any (skip_to table start_key items) _ (skip_to-Holds table start_key items)
      (λ left k. limit_to-Holds table limit left h)
