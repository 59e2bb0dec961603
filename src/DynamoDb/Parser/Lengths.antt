-- ===== src/DynamoDb/Parser/Lengths.antt =====
-- The lengths of what the helpers of ruststack-dynamodb/src/expression.rs cut out of a text.
use Prim.Native.Char.{Char, code}
use ruststack.Prelude.{
  ℕ, zero, suc, ◌+◌, ◌-◌, ◌≤◌, ◌<◌, ◌≡◌, String, ◌&&◌, Option, none, some, List, [], ◌∷◌, All,
  arith, eqb, Bool-cases, inl, inr,
}
use ruststack.Prelude.Int.{ℤ}
use ruststack.Text.Words.{trim_start, to_first}
use ruststack.Text.Slices.{text_len, take_text, drop_text, find_word, text_len-drop_text_le}
use ruststack.DynamoDb.Parser.Splits.{
  depth_after, at_top, comma, slice_text, inside, byte_is, open_paren, head, find_matching_paren,
  arguments_at, extract_function_args, comma_parts, find_operator,
}

text_len-drop_text-suc :
    (n : ℕ) (s : String) → 1 ≤ text_len s → text_len (drop_text (suc n) s) < text_len s
unfolding text_len drop_text
text_len-drop_text-suc n String.[] h = absurd (omega arith)
text_len-drop_text-suc n (String.◌∷◌ c s) h = omega (arith, text_len-drop_text_le n s)

text_len-take_text_le : (n : ℕ) (s : String) → text_len (take_text n s) ≤ text_len s
unfolding text_len take_text
text_len-take_text_le zero s = omega arith
text_len-take_text_le (suc n) String.[] = omega arith
text_len-take_text_le (suc n) (String.◌∷◌ c s) = omega (arith, text_len-take_text_le n s)

text_len-slice_text :
    (start end : ℕ) (expr : String)
    → 1 ≤ start
    → 1 ≤ text_len expr
    → text_len (slice_text start end expr) < text_len expr
text_len-slice_text zero end expr p h = absurd (omega arith)
text_len-slice_text (suc start) end expr p h = omega (
  arith,
  text_len-take_text_le (end - suc start) (drop_text (suc start) expr),
  text_len-drop_text-suc start expr h,
)

inside-shorter :
    (expr inner : String) (start : ℕ) (end : Option ℕ)
    → 1 ≤ text_len expr
    → inside expr start end ≡ some inner
    → text_len inner < text_len expr
inside-shorter expr inner start none h e = absurd (ground arith)
inside-shorter expr inner start (some end) h e =
    ground (arith, text_len-slice_text (start + 1) end expr (omega arith) h)

arguments_at-shorter :
    (expr name inner : String) (found : Option ℕ)
    → 1 ≤ text_len expr
    → arguments_at expr name found ≡ some inner
    → text_len inner < text_len expr
unfolding arguments_at
arguments_at-shorter expr name inner none h e = absurd (ground arith)
arguments_at-shorter expr name inner (some start) h e =
    let trimmed : String = trim_start (drop_text (start + text_len name) expr) in
    elim (Bool-cases (byte_is open_paren (head trimmed))) [
      | inl q ↦
          inside-shorter expr inner (text_len expr - text_len trimmed)
            (find_matching_paren expr (text_len expr - text_len trimmed)) h (rw q at e)
      | inr q ↦ absurd (ground arith)
    ]

-- Arguments lie in parentheses of a text that is not empty.
pub extract_function_args-shorter :
    (expr name inner : String)
    → 1 ≤ text_len expr
    → extract_function_args expr name ≡ some inner
    → text_len inner < text_len expr
unfolding extract_function_args
extract_function_args-shorter expr name inner h e =
    arguments_at-shorter expr name inner (find_word name 0 expr) h e

pub find_operator-bounds :
    (op : ℕ) (depth : ℤ) (i : ℕ) (s : String) (p : ℕ)
    → find_operator op depth i s ≡ some p
    → (i ≤ p) × (p < i + text_len s)
unfolding find_operator text_len
find_operator-bounds op depth i String.[] p h = absurd (ground arith)
find_operator-bounds op depth i (String.◌∷◌ c s) p h =
    elim (Bool-cases (eqb (code c) op && at_top depth (code c))) [
      | inl e ↦ ground arith
      | inr e ↦
          let later =
            find_operator-bounds op (depth_after depth (code c)) (suc i) s p (ground arith) in
          (omega (arith, later.0), omega (arith, later.1))
    ]

unfoldable pub IsUpTo : ℕ → String → Type 0
IsUpTo n part = text_len part ≤ n

All-up : (n m : ℕ) (parts : List String) → n ≤ m → All (IsUpTo n) parts → All (IsUpTo m) parts
unfolding IsUpTo
All-up n m [] h k = tt
All-up n m (part ∷ parts) h (j, k) = (omega (arith, h, j), All-up n m parts h k)

to_first-All :
    (n : ℕ) (c : Char) (parts : List String)
    → All (IsUpTo n) parts
    → All (IsUpTo (suc n)) (to_first c parts)
unfolding IsUpTo text_len
to_first-All n c [] h = (omega arith, tt)
to_first-All n c (part ∷ parts) (h, k) = (omega (arith, h), All-up n (suc n) parts (omega arith) k)

-- The parts between commas are no longer than the text.
pub comma_parts-All : (depth : ℤ) (s : String) → All (IsUpTo (text_len s)) (comma_parts depth s)
unfolding comma_parts IsUpTo text_len
comma_parts-All depth String.[] = (omega arith, tt)
comma_parts-All depth (String.◌∷◌ c s) =
    let rest = comma_parts-All (depth_after depth (code c)) s in
    elim (Bool-cases (eqb (code c) comma && at_top depth (code c))) [
      | inl e ↦ rw e (omega arith, All-up (text_len s) (suc (text_len s)) _ (omega arith) rest)
      | inr e ↦ rw e (to_first-All (text_len s) c _ rest)
    ]
