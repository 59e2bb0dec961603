-- ===== src/DynamoDb/Updates/Frame.antt =====
-- What an update leaves alone.
use ruststack.Prelude.{
  ◌≡◌, ◌≢◌, refl, ◌∙◌, String, Option, none, some, List, [], ◌∷◌, arith, string_eq, eq_iff, All,
  inl, inr,
}
use ruststack.Dict.{get, get-put}
use ruststack.Result.{Result, ok, err, state}
use ruststack.DynamoDb.Values.{AttributeValue, Item, Float}
use ruststack.DynamoDb.Paths.{split_path, set_nested_attribute, remove_nested_attribute}
use ruststack.DynamoDb.Paths.Nested.{get-set_from, get-remove_from}
use ruststack.DynamoDb.Conditions.{ExpressionContext, Failure, resolve_name, resolve_value}
use ruststack.DynamoDb.Conditions.Logic.{Result-cases}
use ruststack.DynamoDb.Updates.{
  UpdateAction, set, remove, add, delete, ParsedUpdateExpression, put_some, added_value,
  evaluate_update_value, apply_set, apply_remove, apply_add, apply_delete, apply_all, apply_update,
  and_then,
}

-- the attribute that stays, and an action that names another one
abbrev pub IsElsewhere : ExpressionContext → String → UpdateAction → Type 0
IsElsewhere ctx kept (set path operand) =
    (name : String) → resolve_name ctx path ≡ ok name → (split_path name).0 ≢ kept
IsElsewhere ctx kept (remove path) =
    (name : String) → resolve_name ctx path ≡ ok name → (split_path name).0 ≢ kept
IsElsewhere ctx kept (add path placeholder) =
    (name : String) → resolve_name ctx path ≡ ok name → name ≢ kept
IsElsewhere ctx kept (delete path placeholder) =
    (name : String) → resolve_name ctx path ≡ ok name → name ≢ kept

module _ (float : Float) (ctx : ExpressionContext) (kept : String) where
  -- the item after an action, or the old one after an error
  abbrev left : Item → Result Failure Item → Item
  left item (ok changed) = changed
  left item (err e) = item

  abbrev Keeps : (UpdateAction → Item → Result Failure Item) → Type 0
  Keeps f =
      (action : UpdateAction) (item : Item)
      → IsElsewhere ctx kept action
      → get kept (left item (f action item)) ≡ get kept item

  apply_set-Keeps : Keeps (apply_set float ctx)
  unfolding apply_set
  apply_set-Keeps (set path operand) item h = elim (Result-cases (resolve_name ctx path)) [
    | inl (name, e) ↦ elim (Result-cases (evaluate_update_value float ctx operand item)) [
      | inl (v, f) ↦
          rw (e, f)
            (unfold set_nested_attribute in
              get-set_from name (split_path name).0 kept (split_path name).1 item v refl (h name e))
      | inr (x, f) ↦ rw (e, f) refl
    ]
    | inr (x, e) ↦ rw e refl
  ]
  apply_set-Keeps action item h = refl

  apply_remove-Keeps : Keeps (apply_remove float ctx)
  unfolding apply_remove
  apply_remove-Keeps (remove path) item h = elim (Result-cases (resolve_name ctx path)) [
    | inl (name, e) ↦ rw e (
        unfold remove_nested_attribute in
        get-remove_from name (split_path name).0 kept (split_path name).1 item refl (h name e))
    | inr (x, e) ↦ rw e refl
  ]
  apply_remove-Keeps action item h = refl

  apply_add-Keeps : Keeps (apply_add float ctx)
  unfolding apply_add
  apply_add-Keeps (add path placeholder) item h = elim (Result-cases (resolve_name ctx path)) [
    | inl (name, e) ↦ elim (Result-cases (resolve_value ctx placeholder)) [
      | inl (v, f) ↦ elim (Result-cases (added_value float (get name item) v)) [
        | inl (w, g) ↦
            rw (e, f, g) (ground (arith, get-put name kept w item, h name e, eq_iff name kept))
        | inr (x, g) ↦ rw (e, f, g) refl
      ]
      | inr (x, f) ↦ rw (e, f) refl
    ]
    | inr (x, e) ↦ rw e refl
  ]
  apply_add-Keeps action item h = refl

  put_some-kept :
      (name : String) (v : Option AttributeValue) (item : Item)
      → name ≢ kept
      → get kept (put_some name v item) ≡ get kept item
  put_some-kept name none item d = refl
  put_some-kept name (some v) item d = ground (arith, get-put name kept v item, eq_iff name kept)

  apply_delete-Keeps : Keeps (apply_delete float ctx)
  unfolding apply_delete
  apply_delete-Keeps (delete path placeholder) item h =
      elim (Result-cases (resolve_name ctx path)) [
        | inl (name, e) ↦ elim (Result-cases (resolve_value ctx placeholder)) [
          | inl (v, f) ↦ rw (e, f) (put_some-kept name _ item (h name e))
          | inr (x, f) ↦ rw (e, f) refl
        ]
        | inr (x, e) ↦ rw e refl
      ]
  apply_delete-Keeps action item h = refl

  apply_all-kept :
      (f : UpdateAction → Item → Result Failure Item)
      → Keeps f
      → (actions : List UpdateAction) (item : Item) → All (IsElsewhere ctx kept) actions
      → get kept (state (apply_all float ctx f actions item)) ≡ get kept item
  unfolding apply_all
  apply_all-kept f k [] item h = refl
  apply_all-kept f k (action ∷ actions) item (h, hs) = elim (Result-cases (f action item)) [
    | inl (changed, e) ↦
        rw (state, e) (apply_all-kept f k actions changed hs ∙ rw e at (k action item h))
    | inr (x, e) ↦ rw (state, e) refl
  ]

  and_then-kept :
      (done : Result Failure (Unit {0}) × Item) (next : Item → Result Failure (Unit {0}) × Item)
      (item : Item)
      → get kept (state done) ≡ get kept item
      → ((t : Item) → get kept (state (next t)) ≡ get kept t)
      → get kept (state (and_then float ctx done next)) ≡ get kept item
  and_then-kept (ok _, t) next item p q = q t ∙ p
  and_then-kept (err x, t) next item p q = p

  -- An update leaves an attribute as it was when SET and REMOVE name only paths that begin
  -- elsewhere and ADD and DELETE only other attributes, also when it fails midway.
  pub apply_update-kept :
      (update : ParsedUpdateExpression) (item : Item)
      → All (IsElsewhere ctx kept) update.set_actions
      → All (IsElsewhere ctx kept) update.remove_actions
      → All (IsElsewhere ctx kept) update.add_actions
      → All (IsElsewhere ctx kept) update.delete_actions
      → get kept (state (apply_update float ctx update item)) ≡ get kept item
  unfolding apply_update
  apply_update-kept update item a b c d =
      let sets = apply_all float ctx (apply_set float ctx) update.set_actions item in
      let removes = apply_all float ctx (apply_remove float ctx) update.remove_actions in
      let adds = apply_all float ctx (apply_add float ctx) update.add_actions in
      let deletes = apply_all float ctx (apply_delete float ctx) update.delete_actions in
      and_then-kept (and_then float ctx (and_then float ctx sets removes) adds) deletes item
        (and_then-kept (and_then float ctx sets removes) adds item
          (and_then-kept sets removes item
            (apply_all-kept (apply_set float ctx) apply_set-Keeps update.set_actions item a)
            (λ t.
              apply_all-kept (apply_remove float ctx) apply_remove-Keeps update.remove_actions t b))
          (λ t. apply_all-kept (apply_add float ctx) apply_add-Keeps update.add_actions t c))
        (λ t. apply_all-kept (apply_delete float ctx) apply_delete-Keeps update.delete_actions t d)
