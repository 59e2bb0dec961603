-- ===== src/DynamoDb/Conditions/Kinds.antt =====
-- Comparisons between values of different types.
use Prim.Native.Nat.{Ordering}
use ruststack.Prelude.{◌≡◌, ◌≢◌, refl, String, true, false, some, [], ◌∷◌}
use ruststack.Result.{ok}
use ruststack.DynamoDb.Values.{AttributeValue, s, n, b, bool, Item, Float, compare_attribute_values}
use ruststack.DynamoDb.Paths.{get_nested_attribute}
use ruststack.DynamoDb.Conditions.{
  comparison, eq, ne, lt, le, gt, ge, ExpressionContext, type_str, evaluate_condition, resolve_name,
  resolve_value, resolve_at,
}

compare_attribute_values-eq :
    (float : Float) (v w : AttributeValue)
    → type_str v ≢ type_str w
    → compare_attribute_values float v w ≡ Ordering.eq
unfolding compare_attribute_values
compare_attribute_values-eq float (s _) (s _) d = absurd (d refl)
compare_attribute_values-eq float (n _) (n _) d = absurd (d refl)
compare_attribute_values-eq float (b _) (b _) d = absurd (d refl)
compare_attribute_values-eq float (bool _) (bool _) d = absurd (d refl)
compare_attribute_values-eq float _ _ d = refl

-- When an attribute and the value that it is compared with are of different types, = and <= and >=
-- hold and <> and < and > do not.
pub evaluate_condition_kinds :
    (float : Float) (ctx : ExpressionContext) (path name placeholder : String) (item : Item)
    (v w : AttributeValue)
    → resolve_name ctx path ≡ ok name
    → get_nested_attribute item name ≡ some v
    → resolve_value ctx placeholder ≡ ok w
    → type_str v ≢ type_str w
    → (evaluate_condition float ctx (comparison path eq (placeholder ∷ [])) item ≡ ok true)
      × (evaluate_condition float ctx (comparison path le (placeholder ∷ [])) item ≡ ok true)
      × (evaluate_condition float ctx (comparison path ge (placeholder ∷ [])) item ≡ ok true)
      × (evaluate_condition float ctx (comparison path ne (placeholder ∷ [])) item ≡ ok false)
      × (evaluate_condition float ctx (comparison path lt (placeholder ∷ [])) item ≡ ok false)
      × (evaluate_condition float ctx (comparison path gt (placeholder ∷ [])) item ≡ ok false)
unfolding evaluate_condition resolve_at
evaluate_condition_kinds float ctx path name placeholder item v w e f g d =
    rw (e, f, g, compare_attribute_values-eq float v w d) (refl, refl, refl, refl, refl, refl)
