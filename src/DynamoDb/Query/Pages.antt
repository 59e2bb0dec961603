-- ===== src/DynamoDb/Query/Pages.antt =====
-- Pages of queries and scans in ruststack-dynamodb/src/storage.rs, read one after the other.
use ruststack.Prelude.{
  ℕ, zero, suc, ◌<◌, ◌≡◌, refl, sym, ap, ◌∙◌, String, true, false, Option, none, some, List, [],
  ◌∷◌, ◌++◌, arith, ◌==◌, string_eq, eq_iff, eq_refl, length, length-append, take, ltb, contains,
  Bool-cases, inl, inr,
}
use mathlib.Core.List.{append_assoc}
use ruststack.Dict.{get}
use ruststack.Result.{Result, ok, err, ◌>>=◌}
use ruststack.DynamoDb.Values.{Item}
use ruststack.DynamoDb.Schema.{DynamoDbError, KeySchemaElement}
use ruststack.DynamoDb.Table.{
  Table, key_parts, join, get_key, copy_attribute, extract_loop, extract_key,
}
use ruststack.DynamoDb.Table.Copies.{copy_same, copy_other, copy_kept}
use ruststack.DynamoDb.Query.{after_key, skip_to, get_elem?, limit_to, page}

abbrev names : List KeySchemaElement → List String
names [] = []
names (k ∷ schema) = k.attribute_name ∷ names schema

-- What agrees with the item stays so.
extract_loop-kept :
    (schema : List KeySchemaElement) (item key : Item) (n : String)
    → get n key ≡ get n item
    → get n (extract_loop schema item key) ≡ get n item
extract_loop-kept [] item key n h = h
extract_loop-kept (k ∷ schema) item key n h =
    extract_loop-kept schema item (copy_attribute k.attribute_name (get k.attribute_name item) key)
      n (copy_kept k.attribute_name n item key h)

-- An attribute of the schema is copied.
extract_loop-copied :
    (schema : List KeySchemaElement) (item key : Item) (n : String)
    → contains (names schema) n ≡ true
    → get n key ≡ none
    → get n (extract_loop schema item key) ≡ get n item
unfolding contains
extract_loop-copied [] item key n m h = cc
extract_loop-copied (k ∷ schema) item key n m h = elim (Bool-cases (k.attribute_name == n)) [
  | inl p ↦
      extract_loop-kept schema item
        (copy_attribute k.attribute_name (get k.attribute_name item) key) n
        (copy_same k.attribute_name n item key h p)
  | inr p ↦
      extract_loop-copied schema item
        (copy_attribute k.attribute_name (get k.attribute_name item) key) n (ground arith)
        (copy_other k.attribute_name n item key p ∙ h)
]

extract_key-get :
    (table : Table) (item : Item) (n : String)
    → contains (names table.description.key_schema) n ≡ true
    → get n (extract_key table item) ≡ get n item
unfolding extract_key get
extract_key-get table item n m = extract_loop-copied table.description.key_schema item [] n m refl

key_parts-agree :
    (schema : List KeySchemaElement) (item other : Item)
    → ((n : String) → contains (names schema) n ≡ true → get n other ≡ get n item)
    → key_parts schema other ≡ key_parts schema item
unfolding key_parts contains
key_parts-agree [] item other h = refl
key_parts-agree (k ∷ schema) item other h =
    rw
      (
        h k.attribute_name (ground (arith, eq_refl k.attribute_name)),
        key_parts-agree schema item other (λ n m. h n (ground arith)),
      )
      refl

-- The key of a page's last item names that item.
get_key-extract_key :
    (table : Table) (item : Item) → get_key table (extract_key table item) ≡ get_key table item
unfolding get_key
get_key-extract_key table item =
    ap (λ r. r >>= λ parts. ok (join parts))
      (key_parts-agree table.description.key_schema item (extract_key table item)
        (extract_key-get table item))

module _ (table : Table) where
  -- Every item has a text key, and no two the same.
  abbrev pub HasKeys : List Item → Type 0
  HasKeys [] = Unit {0}
  HasKeys (item ∷ items) =
      ((key : String) × (get_key table item ≡ ok key) × (after_key table key items ≡ none))
      × HasKeys items

  -- Behind an item's own key stand the items behind it.
  after_key-append :
      (before : List Item) (last : Item) (rest : List Item) (key : String)
      → HasKeys (before ++ last ∷ rest)
      → get_key table last ≡ ok key
      → after_key table key (before ++ last ∷ rest) ≡ some rest
  unfolding after_key
  after_key-append [] last rest key h e = ground (arith, eq_refl key)
  after_key-append (item ∷ before) last rest key ((k, g, a), h) e =
      ground (arith, after_key-append before last rest key h e, eq_iff k key)

  HasKeys-key :
      (before : List Item) (last : Item) (rest : List Item)
      → HasKeys (before ++ last ∷ rest)
      → (key : String) × (get_key table last ≡ ok key)
  HasKeys-key [] last rest ((k, g, a), h) = (k, g)
  HasKeys-key (item ∷ before) last rest (_, h) = HasKeys-key before last rest h

  -- Reading on from the key of an item skips to the items behind it.
  skip_to-extract_key :
      (before : List Item) (last : Item) (rest : List Item)
      → HasKeys (before ++ last ∷ rest)
      → skip_to table (some (extract_key table last)) (before ++ last ∷ rest) ≡ ok rest
  unfolding skip_to
  skip_to-extract_key before last rest h =
      let (key, g) = HasKeys-key before last rest h in
      rw (get_key-extract_key table last, g, after_key-append before last rest key h g) refl

-- The items of a page that is cut off: the last of them is the one whose key is answered.
pub record IsCut (lim : ℕ) (items : List Item) : Type 0 where
  pub before : List Item
  pub last : Item
  pub rest : List Item
  pub whole : items ≡ before ++ last ∷ rest
  pub first : take (suc lim) items ≡ before ++ last ∷ []
  pub found : get_elem? items lim ≡ some last

take-IsCut : (lim : ℕ) (items : List Item) → lim < length items → IsCut lim items
take-IsCut lim [] h = absurd (omega arith)
take-IsCut zero (item ∷ items) h = record {
  before = [];
  last = item;
  rest = items;
  whole = refl;
  first = refl;
  found = refl;
}
take-IsCut (suc lim) (item ∷ items) h =
    let cut = take-IsCut lim items (omega arith) in
    record {
      before = item ∷ cut.before;
      last = cut.last;
      rest = cut.rest;
      whole = ap (λ r. item ∷ r) cut.whole;
      first = ap (λ r. item ∷ r) cut.first;
      found = cut.found;
    }

-- A client that asks for page after page, each from the key that the last one answered; `none` when
-- the rounds run out or a call fails.
abbrev pub and_more : List Item → Option (List Item) → Option (List Item)
and_more first none = none
and_more first (some rest) = some (first ++ rest)

module _ (ask : Option Item → Result DynamoDbError (List Item × Option Item)) where
  unfoldable pub follow : ℕ → Option Item → Option (List Item)
  follow zero start_key = none
  follow (suc rounds) start_key = elim (ask start_key) [
    | err e ↦ none
    | ok (first, none) ↦ some first
    | ok (first, some next) ↦ and_more first (follow rounds (some next))
  ]

  follow_last :
      (rounds : ℕ) (start_key : Option Item) (first : List Item)
      → ask start_key ≡ ok (first, none)
      → follow (suc rounds) start_key ≡ some first
  unfolding follow
  follow_last rounds start_key first h = rw (follow, h) refl

  follow_more :
      (rounds : ℕ) (start_key : Option Item) (first rest : List Item) (next : Item)
      → ask start_key ≡ ok (first, some next)
      → follow rounds (some next) ≡ some rest
      → follow (suc rounds) start_key ≡ some (first ++ rest)
  unfolding follow
  follow_more rounds start_key first rest next h k = rw (follow, h) (ap (and_more first) k)

module _ (table : Table) (lim : ℕ) (items : List Item) (start_key : Option Item) (left : List Item)
    (skipped : skip_to table start_key items ≡ ok left) where
  page_last :
      ltb (suc lim) (length left) ≡ false
      → page table start_key (some (suc lim)) items ≡ ok (left, none)
  unfolding page
  page_last h = rw (skipped, limit_to, h) refl

  page_cut :
      ltb (suc lim) (length left) ≡ true
      → (cut : IsCut lim left)
      → page table start_key (some (suc lim)) items
        ≡ ok (cut.before ++ cut.last ∷ [], some (extract_key table cut.last))
  unfolding page
  page_cut h cut = rw (skipped, limit_to, h, cut.found, cut.first) refl

module _ (table : Table) (lim : ℕ) (items : List Item) (keyed : HasKeys table items) where
  -- From any key that skips to the rest, the client gets the rest.
  pub follow-page :
      (rounds : ℕ) (start_key : Option Item) (seen left : List Item)
      → items ≡ seen ++ left
      → skip_to table start_key items ≡ ok left
      → length left < rounds
      → follow (λ start. page table start (some (suc lim)) items) rounds start_key ≡ some left
  follow-page zero start_key seen left e s h = absurd (omega arith)
  follow-page (suc rounds) start_key seen left e s h =
      elim (Bool-cases (ltb (suc lim) (length left))) [
        | inl more ↦
            let cut = take-IsCut lim left (ground arith) in
            let whole : items ≡ (seen ++ cut.before) ++ cut.last ∷ cut.rest =
              e
              ∙ ap (λ r. seen ++ r) cut.whole
              ∙ sym (append_assoc seen cut.before (cut.last ∷ cut.rest)) in
            follow_more _ rounds start_key (cut.before ++ cut.last ∷ []) cut.rest
              (extract_key table cut.last) (page_cut table lim items start_key left s more cut)
              (follow-page rounds (some (extract_key table cut.last))
                ((seen ++ cut.before) ++ cut.last ∷ []) cut.rest
                (whole ∙ sym (append_assoc (seen ++ cut.before) (cut.last ∷ []) cut.rest))
                (rw whole (
                  skip_to-extract_key table (seen ++ cut.before) cut.last cut.rest
                    (rw whole at keyed)))
                (omega
                  (arith, length-append cut.before (cut.last ∷ cut.rest), ap length cut.whole)))
            ∙ ap some (append_assoc cut.before (cut.last ∷ []) cut.rest ∙ sym cut.whole)
        | inr done ↦
            follow_last _ rounds start_key left (page_last table lim items start_key left s done)
      ]
