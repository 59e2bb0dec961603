-- ===== src/DynamoDb/Updates.antt =====
-- ruststack-dynamodb/src/expression.rs: update expressions and their effect on an item. An action
-- fails before it changes the item, and what earlier actions wrote stays written.
mod Tests
pub mod Frame
pub mod Sets
use ruststack.Prelude.{
  String, Bool, not, Option, none, some, List, [], ◌∷◌, ◌++◌, contains, keep_if, string_eq,
  if◌then◌else◌, is_some,
}
use ruststack.Dict.{get, put}
use ruststack.Result.{Result, ok, err, ok_or, ◌>>=◌}
use ruststack.DynamoDb.Values.{AttributeValue, n, l, ss, ns, Values, nil, cons, Item, Float, parsed}
use ruststack.DynamoDb.Paths.{get_nested_attribute, set_nested_attribute, remove_nested_attribute}
use ruststack.DynamoDb.Conditions.{
  ExpressionError, missing_attribute_value, type_mismatch, Failure, raised, ExpressionContext,
  resolve_name, resolve_value,
}

pub data UpdateValue : Type 0 where
  value path : String → UpdateValue
  if_not_exists : String → UpdateValue → UpdateValue
  list_append plus minus : UpdateValue → UpdateValue → UpdateValue

pub data UpdateAction : Type 0 where
  set : String → UpdateValue → UpdateAction
  remove : String → UpdateAction
  add delete : String → String → UpdateAction

pub record ParsedUpdateExpression : Type 0 where
  pub set_actions : List UpdateAction
  pub remove_actions : List UpdateAction
  pub add_actions : List UpdateAction
  pub delete_actions : List UpdateAction

-- `l1.extend(l2)`
abbrev pub extend : Values → Values → Values
extend nil l2 = l2
extend (cons v l1) l2 = cons v (extend l1 l2)

abbrev pub append_lists : AttributeValue → AttributeValue → Result Failure AttributeValue
append_lists (l l1) (l l2) = ok (l (extend l1 l2))
append_lists _ _ = err (raised type_mismatch)

-- `new_set` after the loop over the values to add
unfoldable pub add_to_set : List String → List String → List String
add_to_set current [] = current
add_to_set current (v ∷ added) =
    add_to_set (if contains current v then current else current ++ v ∷ []) added

-- `current.retain(|s| !delete.contains(s))`
unfoldable pub delete_from_set : List String → List String → List String
delete_from_set current deleted = keep_if (λ v. not (contains deleted v)) current

-- The answer of a DELETE: the set that is left, if the types fit.
abbrev pub deleted_value : Option AttributeValue → AttributeValue → Option AttributeValue
deleted_value (some (ss current)) (ss deleted) = some (ss (delete_from_set current deleted))
deleted_value (some (ns current)) (ns deleted) = some (ns (delete_from_set current deleted))
deleted_value _ _ = none

abbrev pub put_some : String → Option AttributeValue → Item → Item
put_some name none item = item
put_some name (some v) item = put name v item

module _ (float : Float) where
  abbrev pub calculate :
      (float.F64 → float.F64 → float.F64)
      → AttributeValue
      → AttributeValue
      → Result Failure AttributeValue
  calculate f (n n1) (n n2) = ok (n (float.to_string (f (parsed float n1) (parsed float n2))))
  calculate f _ _ = err (raised type_mismatch)

  -- The value that an ADD writes.
  abbrev pub added_value : Option AttributeValue → AttributeValue → Result Failure AttributeValue
  added_value (some (n current)) (n added) = calculate float.add (n current) (n added)
  added_value none (n added) = ok (n added)
  added_value (some (ss current)) (ss added) = ok (ss (add_to_set current added))
  added_value none (ss added) = ok (ss added)
  added_value (some (ns current)) (ns added) = ok (ns (add_to_set current added))
  added_value none (ns added) = ok (ns added)
  added_value _ _ = err (raised type_mismatch)

  module _ (ctx : ExpressionContext) where
    -- `if let Some(existing) = …` of `if_not_exists`
    abbrev pub existing_or :
        Option AttributeValue → Result Failure AttributeValue → Result Failure AttributeValue
    existing_or (some existing) default = ok existing
    existing_or none default = default

    unfoldable pub evaluate_update_value : UpdateValue → Item → Result Failure AttributeValue
    evaluate_update_value (value placeholder) item = resolve_value ctx placeholder
    evaluate_update_value (path name) item = do
      resolved_path ← resolve_name ctx name
      ok_or (get_nested_attribute item resolved_path)
          (raised (missing_attribute_value resolved_path))
    evaluate_update_value (if_not_exists name default) item = do
      let other = evaluate_update_value default item
      resolved_path ← resolve_name ctx name
      existing_or (get_nested_attribute item resolved_path) other
    evaluate_update_value (list_append list1 list2) item = do
      let second = evaluate_update_value list2 item
      val1 ← evaluate_update_value list1 item
      val2 ← second
      append_lists val1 val2
    evaluate_update_value (plus left right) item = do
      let second = evaluate_update_value right item
      val1 ← evaluate_update_value left item
      val2 ← second
      calculate float.add val1 val2
    evaluate_update_value (minus left right) item = do
      let second = evaluate_update_value right item
      val1 ← evaluate_update_value left item
      val2 ← second
      calculate float.subtract val1 val2

    -- The body of each of the four loops; an action of another kind is passed over.
    unfoldable pub apply_set : UpdateAction → Item → Result Failure Item
    unfolding evaluate_update_value
    apply_set (set target operand) item = do
      resolved_path ← resolve_name ctx target
      new_value ← evaluate_update_value operand item
      ok (set_nested_attribute item resolved_path new_value)
    apply_set _ item = ok item

    unfoldable pub apply_remove : UpdateAction → Item → Result Failure Item
    apply_remove (remove target) item = do
      resolved_path ← resolve_name ctx target
      ok (remove_nested_attribute item resolved_path)
    apply_remove _ item = ok item

    unfoldable pub apply_add : UpdateAction → Item → Result Failure Item
    apply_add (add target placeholder) item = do
      resolved_path ← resolve_name ctx target
      add_value ← resolve_value ctx placeholder
      new_value ← added_value (get resolved_path item) add_value
      ok (put resolved_path new_value item)
    apply_add _ item = ok item

    unfoldable pub apply_delete : UpdateAction → Item → Result Failure Item
    unfolding delete_from_set
    apply_delete (delete target placeholder) item = do
      resolved_path ← resolve_name ctx target
      delete_value ← resolve_value ctx placeholder
      ok (put_some resolved_path (deleted_value (get resolved_path item) delete_value) item)
    apply_delete _ item = ok item

    -- A loop over actions: the item as far as it was changed stands beside the result.
    unfoldable pub apply_all :
        (UpdateAction → Item → Result Failure Item)
        → List UpdateAction
        → Item
        → Result Failure (Unit {0}) × Item
    apply_all f [] item = (ok tt, item)
    apply_all f (action ∷ actions) item = elim (f action item) [
      | ok changed ↦ apply_all f actions changed
      | err e ↦ (err e, item)
    ]

    -- the loop after a loop, which an error leaves out
    abbrev pub and_then :
        Result Failure (Unit {0}) × Item
        → (Item → Result Failure (Unit {0}) × Item)
        → Result Failure (Unit {0}) × Item
    and_then (ok done, item) next = next item
    and_then (err e, item) next = (err e, item)

    unfoldable pub apply_update : ParsedUpdateExpression → Item → Result Failure (Unit {0}) × Item
    unfolding apply_all
    apply_update update item =
        and_then
          (and_then
            (and_then (apply_all apply_set update.set_actions item)
              (apply_all apply_remove update.remove_actions))
            (apply_all apply_add update.add_actions))
          (apply_all apply_delete update.delete_actions)
