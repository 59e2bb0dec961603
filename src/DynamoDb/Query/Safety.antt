-- ===== src/DynamoDb/Query/Safety.antt =====
-- Queries and scans of ruststack-dynamodb/src/storage.rs over the parsers of expression.rs.
use ruststack.Prelude.{
  ℕ, ◌≢◌, String, Bool, true, false, Option, none, some, List, arith, All, Option-cases, inl, inr,
  string_eq, ◌≡◌,
}
use ruststack.Dict.{get, values}
use ruststack.Result.{err, ok_or}
use ruststack.DynamoDb.Values.{Item, Float}
use ruststack.DynamoDb.Conditions.{
  ConditionOp, ExpressionContext, panicked, evaluate_key_conditions,
}
use ruststack.DynamoDb.Conditions.Panics.{evaluate_condition-HasValues}
use ruststack.DynamoDb.Schema.{expression}
use ruststack.DynamoDb.Table.{Table, range_key_name}
use ruststack.DynamoDb.Storage.{DynamoDbStorage, lift}
use ruststack.DynamoDb.Parser.{Patterns}
use ruststack.DynamoDb.Parser.Actions.{parsers}
use ruststack.DynamoDb.Parser.Safety.{Answers, AllValues, parse_condition-Answers}
use ruststack.DynamoDb.Parser.KeySafety.{
  HasKeyValues, parse_key_condition-Answers, evaluate_key_conditions-IsSafe,
}
use ruststack.DynamoDb.Sort.{Unordered, sorted, sort_by, by_range_key}
use ruststack.DynamoDb.Sort.Order.{IsWithin, IsOrdered, is_total_order-within}
use ruststack.DynamoDb.Query.{source_items, parse_filter, passes, page, query_items, query, scan}
use ruststack.DynamoDb.Query.Outcomes.{
  Holds, Any, IsHeld, Holds-bind, Holds-safe, lift-Holds, ok_or-Holds, keep_holding-Answers,
  source_items-Holds, page-Holds,
}

module _ (float : Float) (patterns : Patterns) (ctx : ExpressionContext) where
  parse_filter-Answers :
      (filter : Option String)
      → Answers (AllValues patterns) (parse_filter (parsers patterns) filter)
  parse_filter-Answers none = tt
  parse_filter-Answers (some text) = parse_condition-Answers patterns text

  passes-safe :
      (filter : Option ConditionOp) (item : Item)
      → AllValues patterns filter
      → passes float (parsers patterns) ctx filter item ≢ err panicked
  passes-safe none item h = λ p. ground arith
  passes-safe (some filter) item h = evaluate_condition-HasValues float ctx filter item h

  sorted-Holds :
      (unordered : Unordered) (range_key : Option String) (forward : Bool)
      (items all_items : List Item)
      → IsOrdered float range_key all_items
      → IsWithin items all_items
      → Holds Any (lift (sorted float unordered range_key forward items))
  unfolding sort_by
  sorted-Holds unordered none forward items all_items h k = tt
  sorted-Holds unordered (some range_key) true items all_items h k =
      rw (is_total_order-within (by_range_key float range_key) items all_items k h) tt
  sorted-Holds unordered (some range_key) false items all_items h k =
      rw (is_total_order-within (by_range_key float range_key) items all_items k h) tt

  query_items-Holds :
      (unordered : Unordered) (table : Table) (index_name : Option String) (condition : String)
      (filter : Option String) (forward : Bool)
      → IsOrdered float (range_key_name table) (values table.items)
      → Holds Any (
          query_items float
            (parsers patterns)
            ctx
            unordered
            table
            index_name
            condition
            filter
            forward)
  unfolding query_items
  query_items-Holds unordered table index_name condition filter forward ordered =
      Holds-bind (All HasKeyValues) Any _ _
        (lift-Holds (All HasKeyValues) _ (parse_key_condition-Answers patterns condition))
        (λ conditions h.
          Holds-bind (AllValues patterns) Any _ _
            (lift-Holds (AllValues patterns) _ (parse_filter-Answers filter))
            (λ parsed k.
              Holds-bind (IsHeld table) Any (source_items table index_name) _
                (source_items-Holds table index_name)
                (λ items held.
                  Holds-bind (λ matching. IsWithin matching items) Any _ _
                    (lift-Holds (λ matching. IsWithin matching items) _
                      (keep_holding-Answers (evaluate_key_conditions float ctx conditions) items
                        (λ item. evaluate_key_conditions-IsSafe float ctx conditions item h)))
                    (λ matching u.
                      Holds-bind (λ filtered. IsWithin filtered matching) Any _ _
                        (lift-Holds (λ filtered. IsWithin filtered matching) _
                          (keep_holding-Answers (passes float (parsers patterns) ctx parsed)
                            matching (λ item. passes-safe parsed item k)))
                        (λ filtered v.
                          sorted-Holds unordered (range_key_name table) forward filtered
                            (values table.items) ordered (λ x m. held x (u x (v x m))))))))

  -- With the parsers of expression.rs, as modelled on ASCII text, a query whose limit is not zero
  -- does not panic, whatever its expressions, names, values, index and start key are, where the
  -- comparison by the range key, if the table has one, is a total order on the items of the table:
  -- it answers a page or an error.
  pub query_safe :
      (unordered : Unordered) (name : String) (index_name : Option String) (condition : String)
      (filter : Option String) (forward : Bool) (limit : Option ℕ) (start_key : Option Item)
      (storage : DynamoDbStorage)
      → limit ≢ some 0
      → ((table : Table)
          → get name storage.tables ≡ some table
          → IsOrdered float (range_key_name table) (values table.items))
      → query float
          (parsers patterns)
          ctx
          unordered
          name
          index_name
          condition
          filter
          forward
          limit
          start_key
          storage
        ≢ err (expression panicked)
  unfolding query
  query_safe unordered name index_name condition filter forward limit start_key storage h ordered =
      elim (Option-cases (get name storage.tables)) [
        | inl e ↦ rw e (λ p. ground arith)
        | inr (table, e) ↦ rw e (
            Holds-safe Any _ (
              Holds-bind Any Any _ _
                (query_items-Holds unordered table index_name condition filter forward
                  (ordered table e))
                (λ filtered u.
                  Holds-bind Any Any (page table start_key limit filtered) _
                    (page-Holds table start_key limit filtered h) (λ answer u. tt))))
      ]

  -- No scan panics either, unless its limit is zero.
  pub scan_safe :
      (name : String) (index_name filter : Option String) (limit : Option ℕ)
      (start_key : Option Item) (storage : DynamoDbStorage)
      → limit ≢ some 0
      → scan float (parsers patterns) ctx name index_name filter limit start_key storage
        ≢ err (expression panicked)
  unfolding scan
  scan_safe name index_name filter limit start_key storage h = Holds-safe Any _ (
      Holds-bind Any Any (ok_or (get name storage.tables) _) _ (ok_or-Holds _ _ (λ p. ground arith))
        (λ table u.
          Holds-bind (AllValues patterns) Any _ _
            (lift-Holds (AllValues patterns) _ (parse_filter-Answers filter))
            (λ parsed k.
              Holds-bind (IsHeld table) Any (source_items table index_name) _
                (source_items-Holds table index_name)
                (λ items u.
                  Holds-bind (λ left. IsWithin left items) Any _ _
                    (lift-Holds (λ left. IsWithin left items) _
                      (keep_holding-Answers (passes float (parsers patterns) ctx parsed) items
                        (λ item. passes-safe parsed item k)))
                    (λ left u.
                      Holds-bind Any Any (page table start_key limit left) _
                        (page-Holds table start_key limit left h) (λ answer u. tt))))))
