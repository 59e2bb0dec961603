-- ===== src/DynamoDb/Query/Follow.antt =====
-- Following the last evaluated keys of `scan` and of `query` in ruststack-dynamodb/src/storage.rs.
use mathlib.Core.Path.{fun_ext}
use ruststack.Prelude.{
  ℕ, suc, ◌<◌, ◌≡◌, refl, String, Bool, Option, none, some, List, [], length, string_eq,
}
use ruststack.Dict.{get}
use ruststack.Result.{Result, ok, err, ◌>>=◌}
use ruststack.DynamoDb.Values.{Item, Float}
use ruststack.DynamoDb.Conditions.{ConditionOp, ExpressionContext}
use ruststack.DynamoDb.Schema.{DynamoDbError, QueryResult}
use ruststack.DynamoDb.Table.{Table}
use ruststack.DynamoDb.Storage.{Parsers, DynamoDbStorage}
use ruststack.DynamoDb.Sort.{Unordered}
use ruststack.DynamoDb.Query.{
  skip_to, page, source_items, parse_filter, keep_holding, passes, query_items, query, scan,
}
use ruststack.DynamoDb.Query.Pages.{HasKeys, follow, follow-page}

-- What a client reads of an answer.
abbrev pub answered :
    Result DynamoDbError QueryResult → Result DynamoDbError (List Item × Option Item)
answered answer = do result ← answer; ok (result.items, result.last_evaluated_key)

-- the answer that is made of a page
answered-page :
    (r : Result DynamoDbError (List Item × Option Item)) (scanned : ℕ)
    → answered (
        r >>= λ answer. ok (record {
          items = answer.0;
          count = length (answer.0);
          scanned_count = scanned;
          last_evaluated_key = answer.1;
        }))
      ≡ r
answered-page (ok (a, b)) scanned = refl
answered-page (err x) scanned = refl

module _ (float : Float) (parsers : Parsers) (ctx : ExpressionContext) (name : String)
    (storage : DynamoDbStorage) (table : Table) (found : get name storage.tables ≡ some table) where
  -- one page of a scan
  answered-scan :
      (index_name filter_expression : Option String) (limit : Option ℕ) (start_key : Option Item)
      (filter : Option ConditionOp) (items left : List Item)
      → parse_filter parsers filter_expression ≡ ok filter
      → source_items table index_name ≡ ok items
      → keep_holding (passes float parsers ctx filter) items ≡ ok left
      → answered (scan float parsers ctx name index_name filter_expression limit start_key storage)
        ≡ page table start_key limit left
  unfolding scan
  answered-scan index_name filter_expression limit start_key filter items left f e k =
      rw (scan, found, f, e, k) (answered-page (page table start_key limit left) (length items))

  -- Where the filter of a scan parses, its index is there, and each of the items that pass has a
  -- text key of its own, the client that scans with a limit other than zero, each time from the key
  -- last answered, comes to an end: it makes at most one call more than there are items that pass,
  -- and it gets them all, each once and in order.
  pub follow-scan :
      (lim rounds : ℕ) (index_name filter_expression : Option String) (filter : Option ConditionOp)
      (items left : List Item)
      → parse_filter parsers filter_expression ≡ ok filter
      → source_items table index_name ≡ ok items
      → keep_holding (passes float parsers ctx filter) items ≡ ok left
      → HasKeys table left
      → length left < rounds
      → follow
          (λ start. answered (
            scan float parsers ctx name index_name filter_expression
              (some (suc lim))
              start
              storage))
          rounds
          none
        ≡ some left
  unfolding skip_to
  follow-scan lim rounds index_name filter_expression filter items left f e k keyed h =
      rw
        (fun_ext (λ start.
          answered-scan index_name filter_expression (some (suc lim)) start filter items left f e
            k))
        (follow-page table lim left keyed rounds none [] left refl refl h)

  -- one page of a query
  answered-query :
      (unordered : Unordered) (index_name : Option String) (condition : String)
      (filter_expression : Option String) (forward : Bool) (limit : Option ℕ)
      (start_key : Option Item) (items : List Item)
      → query_items float parsers ctx unordered table index_name condition filter_expression forward
        ≡ ok items
      → answered (
          query float parsers ctx unordered name index_name condition filter_expression forward
            limit start_key storage)
        ≡ page table start_key limit items
  unfolding query
  answered-query unordered index_name condition filter_expression forward limit start_key items e =
      rw (query, found, e) (answered-page (page table start_key limit items) (length items))

  -- Where the items of a query are found and each has a text key of its own, the client that
  -- queries with a limit other than zero, each time from the key last answered, comes to an end: it
  -- makes at most one call more than there are items, and it gets them all, each once and in order.
  pub follow-query :
      (unordered : Unordered) (lim rounds : ℕ) (index_name : Option String) (condition : String)
      (filter_expression : Option String) (forward : Bool) (items : List Item)
      → query_items float parsers ctx unordered table index_name condition filter_expression forward
        ≡ ok items
      → HasKeys table items
      → length items < rounds
      → follow
          (λ start. answered (
            query float parsers ctx unordered name index_name condition filter_expression forward
              (some (suc lim))
              start
              storage))
          rounds
          none
        ≡ some items
  unfolding skip_to
  follow-query unordered lim rounds index_name condition filter_expression forward items e keyed h =
      rw
        (fun_ext (λ start.
          answered-query unordered index_name condition filter_expression forward (some (suc lim))
            start items e))
        (follow-page table lim items keyed rounds none [] items refl refl h)
