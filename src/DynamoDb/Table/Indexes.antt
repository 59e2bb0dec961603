-- ===== src/DynamoDb/Table/Indexes.antt =====
-- What adding to and removing from a secondary index does to what it lists.
use ruststack.Prelude.{
  ◌≡◌, refl, ap, ◌∙◌, String, Bool, false, not, ◌&&◌, ◌||◌, Option, none, some, List, [], ◌∷◌, ◌++◌,
  arith, ◌==◌, string_eq, eq_iff, if◌then◌else◌, contains, contains-append, keep_if, Option-cases,
  inl, inr,
}
use ruststack.Dict.{Dict, get, put, remove, get-put, get-remove}
use ruststack.DynamoDb.Values.{Item}
use ruststack.DynamoDb.Table.{
  SecondaryIndex, get_index_key, listed, add_item, add_found, remove_item, remove_found,
  index_parts, join, ◌>>=?◌,
}

-- The index key is this one.
abbrev pub at_key : Option String → String → Bool
at_key none index_key = false
at_key (some k) index_key = k == index_key

-- The item, if there is one, belongs under this index key.
abbrev pub belongs : SecondaryIndex → String → Option Item → Bool
belongs index index_key none = false
belongs index index_key (some item) = at_key (get_index_key index item) index_key

-- A primary key is listed under an index key exactly when its item belongs there.
pub record IsInStep (items : Dict String Item) (index : SecondaryIndex) : Type 0 where
  pub lists :
      (index_key primary_key : String)
      → contains (listed (get index_key index.items)) primary_key
        ≡ belongs index index_key (get primary_key items)

contains-keep_if_ne :
    (k q : String) (xs : List String)
    → contains (keep_if (λ x. not (x == k)) xs) q ≡ (if k == q then false else contains xs q)
unfolding contains
contains-keep_if_ne k q [] = ground arith
contains-keep_if_ne k q (x ∷ xs) =
    ground (arith, contains-keep_if_ne k q xs, eq_iff x k, eq_iff x q, eq_iff k q)

contains-add_found :
    (index : SecondaryIndex) (k ik q : String) (key : Option String)
    → contains (listed (get ik (add_found index k key).items)) q
      ≡ (contains (listed (get ik index.items)) q || at_key key ik && k == q)
unfolding contains
contains-add_found index k ik q none = ground arith
contains-add_found index k ik q (some j) = ground (
  arith,
  get-put j ik (listed (get j index.items) ++ k ∷ []) index.items,
  contains-append (listed (get j index.items)) (k ∷ []) q,
  eq_iff j ik,
)

contains-remove_found :
    (index : SecondaryIndex) (k ik q : String) (key : Option String)
    → contains (listed (get ik (remove_found index k key).items)) q
      ≡ (if at_key key ik && k == q then false else contains (listed (get ik index.items)) q)
unfolding contains
contains-remove_found index k ik q none = ground arith
contains-remove_found index k ik q (some j) = elim (Option-cases (get j index.items)) [
  | inl e ↦ ground (arith, e, eq_iff j ik)
  | inr (keys, e) ↦ ground (
    arith,
    get-put j ik (keep_if (λ x. not (x == k)) keys) index.items,
    contains-keep_if_ne k q keys,
    eq_iff j ik,
  )
]

-- The operations keep the schema of the index, by which keys are found.
add_found-key_schema :
    (index : SecondaryIndex) (k : String) (key : Option String)
    → (add_found index k key).key_schema ≡ index.key_schema
add_found-key_schema index k none = refl
add_found-key_schema index k (some j) = refl

remove_found-key_schema :
    (index : SecondaryIndex) (k : String) (key : Option String)
    → (remove_found index k key).key_schema ≡ index.key_schema
remove_found-key_schema index k none = refl
remove_found-key_schema index k (some j) = elim (Option-cases (get j index.items)) [
  | inl e ↦ rw e refl
  | inr (keys, e) ↦ rw e refl
]

belongs_kept :
    (index index' : SecondaryIndex) (ik : String) (o : Option Item)
    → index'.key_schema ≡ index.key_schema
    → belongs index' ik o ≡ belongs index ik o
unfolding get_index_key
belongs_kept index index' ik none e = refl
belongs_kept index index' ik (some item) e =
    ap (λ schema. at_key (index_parts schema item >>=? λ parts. some (join parts)) ik) e

module _ (items : Dict String Item) (index : SecondaryIndex) (h : IsInStep items index) where
  pub add-IsInStep :
      (k : String) (item : Item)
      → get k items ≡ none
      → IsInStep (put k item items) (add_item item k index)
  unfolding add_item
  add-IsInStep k item e = record {
    lists = λ ik q. ground (
      arith,
      contains-add_found index k ik q (get_index_key index item),
      belongs_kept index (add_found index k (get_index_key index item)) ik
          (get q (put k item items)) (add_found-key_schema index k (get_index_key index item)),
      h.lists ik q,
      get-put k q item items,
      eq_iff k q,
    );
  }

  pub remove-IsInStep :
      (k : String) (old : Item)
      → get k items ≡ some old
      → IsInStep (remove k items) (remove_item old k index)
  unfolding remove_item
  remove-IsInStep k old e = record {
    lists = λ ik q. ground (
      arith,
      contains-remove_found index k ik q (get_index_key index old),
      belongs_kept index (remove_found index k (get_index_key index old)) ik
          (get q (remove k items)) (remove_found-key_schema index k (get_index_key index old)),
      h.lists ik q,
      get-remove k q items,
      eq_iff k q,
    );
  }

-- Only what is looked up in the items counts.
pub IsInStep-get :
    (items items' : Dict String Item) (index : SecondaryIndex)
    → ((k : String) → get k items ≡ get k items')
    → IsInStep items index
    → IsInStep items' index
IsInStep-get items items' index e h = record {
  lists = λ ik q. h.lists ik q ∙ ap (belongs index ik) (e q);
}
