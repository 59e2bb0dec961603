-- ===== src/DynamoDb/Parser/Splits.antt =====
-- The helpers at the end of ruststack-dynamodb/src/expression.rs, which cut a text outside of
-- parentheses, on ASCII text. The depth is an `i32`, below zero behind a
-- stray parenthesis; it does not overflow on a text of fewer than 2^31 bytes.
use Prim.Native.Char.{Char, code}
use ruststack.Prelude.{
  ℕ, zero, suc, ◌+◌, ◌-◌, String, Bool, true, false, ◌&&◌, ◌||◌, not, Option, none, some, eqb, leb,
  if◌then◌else◌, List, [], ◌∷◌, map, keep_if, ◌==◌, string_eq,
}
use ruststack.Prelude.Int.{ℤ, pos, negsuc}
use ruststack.Text.Words.{trim, trim_start, to_first}
use ruststack.Text.Slices.{text_len, take_text, drop_text, starts_with_word, find_word}

-- the codes of the characters
abbrev pub open_paren : ℕ
open_paren = 40

abbrev pub close_paren : ℕ
close_paren = 41

abbrev pub space : ℕ
space = 32

abbrev pub comma : ℕ
comma = 44

-- `depth += 1` and `depth -= 1`
abbrev deeper : ℤ → ℤ
deeper (pos d) = pos (suc d)
deeper (negsuc zero) = pos 0
deeper (negsuc (suc d)) = negsuc d

abbrev shallower : ℤ → ℤ
shallower (pos zero) = negsuc 0
shallower (pos (suc d)) = pos d
shallower (negsuc d) = negsuc (suc d)

-- The depth behind a byte.
unfoldable pub depth_after : ℤ → ℕ → ℤ
depth_after d byte =
    if eqb byte open_paren then deeper d else if eqb byte close_paren then shallower d else d

-- The byte is no parenthesis and the depth before it is zero.
unfoldable pub at_top : ℤ → ℕ → Bool
at_top (pos zero) byte = not (eqb byte open_paren) && not (eqb byte close_paren)
at_top (pos (suc d)) byte = false
at_top (negsuc d) byte = false

abbrev pub byte_is : ℕ → Option Char → Bool
byte_is n none = false
byte_is n (some c) = eqb (code c) n

unfoldable pub head : String → Option Char
head String.[] = none
head (String.◌∷◌ c s) = some c

-- `is_ascii_alphanumeric`, of a byte that may be missing
abbrev pub is_alphanumeric : ℕ → Bool
is_alphanumeric n = (leb 48 n && leb n 57) || (leb 65 n && leb n 90) || (leb 97 n && leb n 122)

abbrev pub ends_word : Option Char → Bool
ends_word none = true
ends_word (some c) = not (is_alphanumeric (code c))

-- One turn of the loop of `split_by_and` on the rest of the text: whether a BETWEEN is open, and
-- whether an AND that separates conditions starts here.
unfoldable pub and_turn : ℤ → Bool → Option Char → ℕ → String → Bool × Bool
unfolding at_top starts_with_word drop_text head
and_turn depth in_between prev byte rest =
    let between = in_between || (starts_with_word rest "BETWEEN" && ends_word prev) in
    let separates =
      starts_with_word rest "AND" && ends_word prev && ends_word (head (drop_text 3 rest)) in
    if at_top depth byte
    then (between && not separates, separates && not between)
    else (in_between, false)

-- The parts from here on, with `skip` characters of an AND still to pass over.
unfoldable pub and_parts : ℤ → Bool → Option Char → ℕ → String → List String
unfolding and_turn depth_after
and_parts depth in_between prev skip String.[] = String.[] ∷ []
and_parts depth in_between prev (suc skip) (String.◌∷◌ c s) =
    and_parts depth in_between (some c) skip s
and_parts depth in_between prev zero (String.◌∷◌ c s) =
    let turn = and_turn depth in_between prev (code c) (String.◌∷◌ c s) in
    let rest = and_parts (depth_after depth (code c)) turn.0 (some c) (if turn.1 then 2 else 0) s in
    if turn.1 then String.[] ∷ rest else to_first c rest

unfoldable pub split_by_and : String → List String
unfolding and_parts trim
split_by_and expr =
    keep_if (λ part. not (part == "")) (map trim (and_parts (pos 0) false none 0 expr))

-- An operator with blanks around it starts here.
unfoldable pub operator_here : String → ℤ → Option Char → ℕ → String → Bool
unfolding at_top text_len starts_with_word head drop_text
operator_here op depth prev byte rest =
    at_top depth byte
    && leb (text_len op + 2) (text_len rest)
    && byte_is space prev
    && starts_with_word rest op
    && byte_is space (head (drop_text (text_len op) rest))

-- the loop of `split_by_operator`, from position `i`
unfoldable pub operator_from : String → ℤ → Option Char → ℕ → String → Option ℕ
unfolding operator_here depth_after
operator_from op depth prev i String.[] = none
operator_from op depth prev i (String.◌∷◌ c s) =
    let rest = operator_from op (depth_after depth (code c)) (some c) (suc i) s in
    if operator_here op depth prev (code c) (String.◌∷◌ c s) then some i else rest

abbrev pub cut_at : String → String → Option ℕ → Option (String × String)
cut_at expr op none = none
cut_at expr op (some i) = some (take_text (i - 1) expr, drop_text (i + text_len op + 1) expr)

unfoldable pub split_by_operator : String → String → Option (String × String)
unfolding operator_from take_text drop_text text_len
split_by_operator expr op = cut_at expr op (operator_from op (pos 0) none 0 expr)

-- the loop of `find_matching_paren`, from position `i`
unfoldable pub matching_from : ℤ → ℕ → String → Option ℕ
unfolding depth_after
matching_from depth i String.[] = none
matching_from depth i (String.◌∷◌ c s) =
    let after = depth_after depth (code c) in
    let rest = matching_from after (suc i) s in
    if eqb (code c) close_paren && is_zero after then some i else rest
  where
    is_zero : ℤ → Bool
    is_zero (pos zero) = true
    is_zero (pos (suc d)) = false
    is_zero (negsuc d) = false

unfoldable pub find_matching_paren : String → ℕ → Option ℕ
unfolding matching_from head drop_text
find_matching_paren expr start =
    if byte_is open_paren (head (drop_text start expr))
    then matching_from (pos 0) start (drop_text start expr)
    else none

-- `&expr[start..end]`
abbrev pub slice_text : ℕ → ℕ → String → String
slice_text start end expr = take_text (end - start) (drop_text start expr)

abbrev pub inside : String → ℕ → Option ℕ → Option String
inside expr start none = none
inside expr start (some end) = some (slice_text (start + 1) end expr)

-- The text in the parentheses behind the name of a function that was found at a position.
unfoldable pub arguments_at : String → String → Option ℕ → Option String
unfolding find_matching_paren trim_start text_len take_text drop_text head
arguments_at expr func_name none = none
arguments_at expr func_name (some start) =
    let trimmed = trim_start (drop_text (start + text_len func_name) expr) in
    let paren_start = text_len expr - text_len trimmed in
    if byte_is open_paren (head trimmed)
    then inside expr paren_start (find_matching_paren expr paren_start)
    else none

unfoldable pub extract_function_args : String → String → Option String
unfolding arguments_at find_word
extract_function_args expr func_name = arguments_at expr func_name (find_word func_name 0 expr)

-- `split_function_args` and `split_by_comma`, which are the same, from a depth on
unfoldable pub comma_parts : ℤ → String → List String
unfolding at_top depth_after
comma_parts depth String.[] = String.[] ∷ []
comma_parts depth (String.◌∷◌ c s) =
    let rest = comma_parts (depth_after depth (code c)) s in
    if eqb (code c) comma && at_top depth (code c) then String.[] ∷ rest else to_first c rest

unfoldable pub split_function_args : String → List String
unfolding comma_parts
split_function_args args = comma_parts (pos 0) args

unfoldable pub split_by_comma : String → List String
unfolding comma_parts
split_by_comma s = comma_parts (pos 0) s

unfoldable pub find_operator : ℕ → ℤ → ℕ → String → Option ℕ
unfolding at_top depth_after
find_operator op depth i String.[] = none
find_operator op depth i (String.◌∷◌ c s) =
    let rest = find_operator op (depth_after depth (code c)) (suc i) s in
    if eqb (code c) op && at_top depth (code c) then some i else rest
