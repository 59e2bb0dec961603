-- ===== src/DynamoDb/Parser/Actions.antt =====
-- ruststack-dynamodb/src/expression.rs: the parser of update expressions, on ASCII text, and the
-- parsers as the tables use them.
use Prim.Native.String
use ruststack.Prelude.{
  ℕ, zero, suc, ◌+◌, String, ◌&&◌, Option, none, some, leb, eqb, List, [], ◌∷◌, ◌++◌, ◌==◌,
  string_eq, if◌then◌else◌,
}
use ruststack.Result.{Result, ok, err, ◌>>=◌}
use ruststack.Text.{starts_with}
use ruststack.Text.Words.{trim, is_whitespace}
use ruststack.Text.Slices.{text_len, take_text, drop_text, find_code}
use ruststack.DynamoDb.Conditions.{Failure, panicked}
use ruststack.DynamoDb.Updates.{
  UpdateValue, value, path, if_not_exists, list_append, plus, minus, UpdateAction, set, remove, add,
  delete, ParsedUpdateExpression,
}
use ruststack.Prelude.Int.{pos}
use ruststack.DynamoDb.Storage.{Parsers}
use ruststack.DynamoDb.Parser.{Patterns, fails, parse_condition, parse_key_condition}
use ruststack.DynamoDb.Parser.Splits.{
  extract_function_args, split_function_args, split_by_comma, find_operator, slice_text,
}

-- What `parse_update_value` does with a trimmed text.
pub data ValueShape : Type 0 where
  fallback : String → String → ValueShape
  appended added subtracted : String → String → ValueShape
  placeholder attribute : ValueShape
  malformed : String → ValueShape

abbrev pub two_parts : String → (String → String → ValueShape) → List String → ValueShape
two_parts name f (x ∷ y ∷ []) = f x y
two_parts name f _ = malformed (String.◌++◌ name " requires 2 arguments")

abbrev pub called_with :
    String → (String → String → ValueShape) → Option String → ValueShape → ValueShape
called_with name f none next = next
called_with name f (some inner) next = two_parts name f (split_function_args inner)

abbrev pub operated_at :
    String → (String → String → ValueShape) → Option ℕ → ValueShape → ValueShape
operated_at expr f none next = next
operated_at expr f (some i) next = f (take_text i expr) (drop_text (i + 1) expr)

unfoldable pub value_shape : String → ValueShape
unfolding extract_function_args split_function_args find_operator starts_with take_text drop_text
value_shape expr =
    called_with "if_not_exists" fallback (extract_function_args expr "if_not_exists") (
      called_with "list_append" appended (extract_function_args expr "list_append") (
        operated_at expr added (find_operator 43 (pos 0) 0 expr) (
          operated_at expr subtracted (find_operator 45 (pos 0) 0 expr)
            (if starts_with expr ":" then placeholder else attribute))))

-- Results of runs on fuel: `none` where it is spent.
abbrev pub and_value :
    (UpdateValue → UpdateValue)
    → Option (Result Failure UpdateValue)
    → Option (Result Failure UpdateValue)
and_value f none = none
and_value f (some (err e)) = some (err e)
and_value f (some (ok v)) = some (ok (f v))

abbrev pub both_values :
    (UpdateValue → UpdateValue → UpdateValue)
    → Option (Result Failure UpdateValue)
    → Option (Result Failure UpdateValue)
    → Option (Result Failure UpdateValue)
both_values f none right = none
both_values f (some (err e)) right = some (err e)
both_values f (some (ok left)) right = and_value (f left) right

-- What a shape parses to, with the recursive calls as an argument.
abbrev pub parse_value_shape :
    (String → Option (Result Failure UpdateValue))
    → String
    → ValueShape
    → Option (Result Failure UpdateValue)
parse_value_shape again expr (fallback left right) =
    and_value (if_not_exists (trim left)) (again right)
parse_value_shape again expr (appended left right) =
    both_values list_append (again left) (again right)
parse_value_shape again expr (added left right) = both_values plus (again left) (again right)
parse_value_shape again expr (subtracted left right) = both_values minus (again left) (again right)
parse_value_shape again expr placeholder = some (ok (value expr))
parse_value_shape again expr attribute = some (ok (path expr))
parse_value_shape again expr (malformed what) = some (fails what)

unfoldable pub parse_update_value : ℕ → String → Option (Result Failure UpdateValue)
unfolding value_shape trim
parse_update_value zero text = none
parse_update_value (suc fuel) text =
    parse_value_shape (parse_update_value fuel) (trim text) (value_shape (trim text))

abbrev pub settled_value : Option (Result Failure UpdateValue) → Result Failure UpdateValue
settled_value none = err panicked
settled_value (some r) = r

-- The first part of an action and what stands behind it, at a position.
abbrev pub set_action : String → Option ℕ → Result Failure UpdateAction
set_action part none = fails (String.◌++◌ "Invalid SET action: " part)
set_action part (some eq_pos) =
    let value_expr = trim (drop_text (eq_pos + 1) part) in
    settled_value (parse_update_value (suc (text_len value_expr)) value_expr) >>= λ v.
    ok (set (trim (take_text eq_pos part)) v)

unfoldable pub parse_set_parts : List String → Result Failure (List UpdateAction)
unfolding trim find_code parse_update_value text_len take_text drop_text
parse_set_parts [] = ok []
parse_set_parts (text ∷ parts) = do
  action ← set_action (trim text) (find_code (λ n. eqb n 61) 0 (trim text))
  actions ← parse_set_parts parts
  ok (action ∷ actions)

-- the loop of `parse_remove_clause`
unfoldable pub parse_remove_parts : List String → List UpdateAction
unfolding trim
parse_remove_parts [] = []
parse_remove_parts (text ∷ parts) =
    let actions = parse_remove_parts parts in
    if trim text == "" then actions else remove (trim text) ∷ actions

-- the path and the value around a blank, for ADD and DELETE
abbrev pub spaced_action :
    String → (String → String → UpdateAction) → String → Option ℕ → Result Failure UpdateAction
spaced_action name f part none =
    fails (String.◌++◌ "Invalid " (String.◌++◌ name (String.◌++◌ " action: " part)))
spaced_action name f part (some space_pos) =
    ok (f (trim (take_text space_pos part)) (trim (drop_text space_pos part)))

unfoldable pub parse_spaced_parts :
    String → (String → String → UpdateAction) → List String → Result Failure (List UpdateAction)
unfolding trim find_code take_text drop_text
parse_spaced_parts name f [] = ok []
parse_spaced_parts name f (text ∷ parts) = do
  action ← spaced_action name f (trim text) (find_code is_whitespace 0 (trim text))
  actions ← parse_spaced_parts name f parts
  ok (action ∷ actions)

-- The actions of a clause, behind those parsed so far.
unfoldable pub parse_clause :
    ParsedUpdateExpression → String → String → Result Failure ParsedUpdateExpression
unfolding split_by_comma parse_set_parts parse_remove_parts parse_spaced_parts
parse_clause parsed clause_type body =
    if clause_type == "SET"
    then parse_set_parts (split_by_comma body)
      >>= (λ actions. ok (record parsed { set_actions = parsed.set_actions ++ actions }))
    else if clause_type == "REMOVE"
    then ok (record parsed {
      remove_actions = parsed.remove_actions ++ parse_remove_parts (split_by_comma body);
    })
    else if clause_type == "ADD"
    then parse_spaced_parts "ADD" add (split_by_comma body)
      >>= (λ actions. ok (record parsed { add_actions = parsed.add_actions ++ actions }))
    else if clause_type == "DELETE"
    then parse_spaced_parts "DELETE" delete (split_by_comma body)
      >>= (λ actions. ok (record parsed { delete_actions = parsed.delete_actions ++ actions }))
    else fails (String.◌++◌ "Unknown update clause: " clause_type)

unfoldable pub parse_clauses :
    ParsedUpdateExpression → List (String × String) → Result Failure ParsedUpdateExpression
unfolding parse_clause
parse_clauses parsed [] = ok parsed
parse_clauses parsed ((clause_type, body) ∷ clauses) = do
  next ← parse_clause parsed clause_type body
  parse_clauses next clauses

abbrev pub empty_update : ParsedUpdateExpression
empty_update = record {
  set_actions = [];
  remove_actions = [];
  add_actions = [];
  delete_actions = [];
}

-- `sort_by_key` on positions, stable
abbrev pub insert_position : ℕ → String → List (ℕ × String) → List (ℕ × String)
insert_position i keyword [] = (i, keyword) ∷ []
insert_position i keyword ((j, other) ∷ positions) =
    let rest = insert_position i keyword positions in
    if leb i j then (i, keyword) ∷ (j, other) ∷ positions else (j, other) ∷ rest

abbrev pub with_position : String → Option ℕ → List (ℕ × String) → List (ℕ × String)
with_position keyword none positions = positions
with_position keyword (some i) positions = insert_position i keyword positions

-- `expr[start..end]`, which panics on bounds that are not in order or beyond the text
abbrev pub sliced : ℕ → ℕ → String → Result Failure String
sliced start end expr =
    if leb start end && leb end (text_len expr)
    then ok (slice_text start end expr)
    else err panicked

-- Where the clause behind a keyword ends.
abbrev pub clause_end : String → List (ℕ × String) → ℕ
clause_end expr [] = text_len expr
clause_end expr ((i, keyword) ∷ positions) = i

unfoldable pub clauses_at : String → List (ℕ × String) → Result Failure (List (String × String))
unfolding text_len take_text drop_text trim
clauses_at expr [] = ok []
clauses_at expr ((start, keyword) ∷ positions) = do
  body ← sliced (start + text_len keyword) (clause_end expr positions) expr
  clauses ← clauses_at expr positions
  ok ((keyword, trim body) ∷ clauses)

module _ (patterns : Patterns) where
  abbrev pub positions_of : List String → String → List (ℕ × String)
  positions_of [] expr = []
  positions_of (keyword ∷ keywords) expr =
      with_position keyword (patterns.keyword keyword expr) (positions_of keywords expr)

  unfoldable pub split_update_clauses : String → Result Failure (List (String × String))
  unfolding clauses_at
  split_update_clauses expr =
      clauses_at expr (positions_of ("SET" ∷ "REMOVE" ∷ "ADD" ∷ "DELETE" ∷ []) expr)

  unfoldable pub parse_update_expression : String → Result Failure ParsedUpdateExpression
  unfolding split_update_clauses parse_clauses trim
  parse_update_expression text =
      let expression = trim text in
      if expression == ""
      then ok empty_update
      else split_update_clauses expression >>= parse_clauses empty_update

  -- The parsers of the tables.
  abbrev pub parsers : Parsers
  parsers = record {
    parse_condition = parse_condition patterns;
    parse_key_condition = parse_key_condition patterns;
    parse_update_expression = parse_update_expression;
  }
