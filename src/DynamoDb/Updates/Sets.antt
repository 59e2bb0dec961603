-- ===== src/DynamoDb/Updates/Sets.antt =====
-- ADD and DELETE on sets.
use ruststack.Prelude.{
  ◌≡◌, refl, ap, ◌∙◌, String, true, false, ◌||◌, some, List, [], ◌∷◌, ◌++◌, arith, contains,
  contains-append, string_eq, eq_iff, eq_refl, Bool-cases, inl, inr,
}
use ruststack.Dict.{get, put, get-put}
use ruststack.Result.{Result, ok, state, reply}
use ruststack.DynamoDb.Values.{ss, Item, Float}
use ruststack.DynamoDb.Conditions.{ExpressionContext, Failure, resolve_name, resolve_value}
use ruststack.DynamoDb.Updates.{
  UpdateAction, add, delete, ParsedUpdateExpression, add_to_set, delete_from_set, apply_add,
  apply_delete, apply_all, apply_update, and_then,
}

contains-add_to_set :
    (current added : List String) (v : String)
    → contains (add_to_set current added) v ≡ (contains current v || contains added v)
unfolding add_to_set contains
contains-add_to_set current [] v = ground arith
contains-add_to_set current (a ∷ added) v = ground (
  arith,
  contains-add_to_set current added v,
  contains-add_to_set (current ++ a ∷ []) added v,
  contains-append current (a ∷ []) v,
  eq_iff a v,
)

-- none of the values is among the others
abbrev pub IsApart : List String → List String → Type 0
IsApart deleted [] = Unit
IsApart deleted (v ∷ current) = (contains deleted v ≡ false) × IsApart deleted current

delete_from_set-kept :
    (deleted current : List String)
    → IsApart deleted current
    → delete_from_set current deleted ≡ current
unfolding delete_from_set
delete_from_set-kept deleted [] h = refl
delete_from_set-kept deleted (v ∷ current) (h, hs) =
    ground (arith, delete_from_set-kept deleted current hs)

delete_from_set-snoc :
    (deleted current : List String) (a : String)
    → contains deleted a ≡ true
    → delete_from_set (current ++ a ∷ []) deleted ≡ delete_from_set current deleted
unfolding delete_from_set
delete_from_set-snoc deleted [] a h = ground arith
delete_from_set-snoc deleted (v ∷ current) a h =
    ground (arith, delete_from_set-snoc deleted current a h)

delete-add_to_set :
    (deleted added current : List String)
    → ((v : String) → contains added v ≡ true → contains deleted v ≡ true)
    → delete_from_set (add_to_set current added) deleted ≡ delete_from_set current deleted
unfolding delete_from_set add_to_set contains
delete-add_to_set deleted [] current h = refl
delete-add_to_set deleted (a ∷ added) current h = elim (Bool-cases (contains current a)) [
  | inl e ↦ rw e (delete-add_to_set deleted added current (λ v m. h v (ground arith)))
  | inr e ↦ rw e (
      delete-add_to_set deleted added (current ++ a ∷ []) (λ v m. h v (ground arith))
      ∙ delete_from_set-snoc deleted current a (h a (ground (arith, eq_refl a))))
]

module _ (float : Float) (ctx : ExpressionContext) (path name placeholder : String)
    (added : List String) (e : resolve_name ctx path ≡ ok name)
    (f : resolve_value ctx placeholder ≡ ok (ss added)) where
  apply_add_set :
      (current : List String) (item : Item)
      → get name item ≡ some (ss current)
      → apply_add float ctx (add path placeholder) item
        ≡ ok (put name (ss (add_to_set current added)) item)
  unfolding apply_add
  apply_add_set current item g = rw (e, f, g) refl

  apply_delete_set :
      (current : List String) (item : Item)
      → get name item ≡ some (ss current)
      → apply_delete float ctx (delete path placeholder) item
        ≡ ok (put name (ss (delete_from_set current added)) item)
  unfolding apply_delete
  apply_delete_set current item g = rw (e, f, g) refl

  apply_one :
      (f : UpdateAction → Item → Result Failure Item) (action : UpdateAction) (item t : Item)
      → f action item ≡ ok t
      → apply_all float ctx f (action ∷ []) item ≡ (ok tt, t)
  unfolding apply_all
  apply_one f action item t h = rw (apply_all, h) refl

  apply_both :
      (current : List String) (item : Item)
      → get name item ≡ some (ss current)
      → apply_update float ctx
          (record {
            set_actions = [];
            remove_actions = [];
            add_actions = add path placeholder ∷ [];
            delete_actions = delete path placeholder ∷ [];
          })
          item
        ≡ (
          ok tt,
          put name
              (ss (delete_from_set (add_to_set current added) added))
              (put name (ss (add_to_set current added)) item),
        )
  unfolding apply_update
  apply_both current item g =
      let grown : Item = put name (ss (add_to_set current added)) item in
      let read : get name grown ≡ some (ss (add_to_set current added)) =
        ground (arith, get-put name name (ss (add_to_set current added)) item, eq_refl name) in
      ap
        (λ r.
          and_then float ctx r
            (apply_all float ctx (apply_delete float ctx) (delete path placeholder ∷ [])))
        (apply_one (apply_add float ctx) (add path placeholder) item grown
          (apply_add_set current item g))
      ∙ apply_one (apply_delete float ctx) (delete path placeholder) grown _
          (apply_delete_set (add_to_set current added) grown read)

-- An update that adds values to a string set and deletes the same values leaves the set as it was,
-- if none of them was in it.
pub apply_update-add_delete :
    (float : Float) (ctx : ExpressionContext) (path name placeholder : String)
    (current added : List String) (item : Item)
    → resolve_name ctx path ≡ ok name
    → resolve_value ctx placeholder ≡ ok (ss added)
    → get name item ≡ some (ss current)
    → IsApart added current
    → let update : ParsedUpdateExpression = record {
      set_actions = [];
      remove_actions = [];
      add_actions = add path placeholder ∷ [];
      delete_actions = delete path placeholder ∷ [];
    } in
      (reply (apply_update float ctx update item) ≡ ok tt)
      × (get name (state (apply_update float ctx update item)) ≡ some (ss current))
apply_update-add_delete float ctx path name placeholder current added item e f g h =
    let both = apply_both float ctx path name placeholder added e f current item g in
    (
      ap reply both,
      ap (λ r. get name (state r)) both
          ∙ rw (get-put, eq_refl)
              (ap (λ left. some (ss left))
                (delete-add_to_set added added current (λ v m. m)
                  ∙ delete_from_set-kept added current h)),
    )
