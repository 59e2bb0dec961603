-- ===== src/DynamoDb/Parser/Totals.antt =====
-- The recursion of parse_condition_expr in ruststack-dynamodb/src/expression.rs, by the lengths of
-- the texts.
use Prim.Native.Char.{Char, code}
use Prim.Native.String.{[], ◌∷◌}
use ruststack.Prelude.{
  ℕ, zero, suc, ◌+◌, ◌-◌, ◌≤◌, ◌<◌, ◌≡◌, ◌≢◌, refl, String, Bool, true, false, Option, none, some,
  arith, string_eq, if◌then◌else◌, Bool-cases, Option-cases, inl, inr,
}
use ruststack.Prelude.Int.{ℤ, pos}
use ruststack.Result.{Result, ok, err}
use ruststack.Text.Words.{trim, trim_start, trim_end, is_whitespace, before_trimmed}
use ruststack.Text.Slices.{
  text_len, take_text, drop_text, starts_with_word, text_len-take_text, text_len-drop_text,
  starts_with_word-len,
}
use ruststack.DynamoDb.Conditions.{Failure, ConditionOp, and, or, not}
use ruststack.DynamoDb.Parser.Splits.{depth_after, operator_here, operator_from, split_by_operator}
use ruststack.DynamoDb.Parser.{
  Patterns, Shape, wrapped, negated, either, both, atom, is_wrapped, operated, shape_of, combine,
  and_right, parse_shape, parse_condition_expr,
}

text_len-before_trimmed : (c : Char) (s : String) → text_len (before_trimmed c s) ≤ suc (text_len s)
unfolding text_len
text_len-before_trimmed c [] = elim (Bool-cases (is_whitespace (code c))) [
  | inl e ↦ rw e (omega arith)
  | inr e ↦ rw e (omega arith)
]
text_len-before_trimmed c (d ∷ s) = omega arith

text_len-trim_end : (s : String) → text_len (trim_end s) ≤ text_len s
unfolding text_len trim_end
text_len-trim_end [] = omega arith
text_len-trim_end (c ∷ s) =
    omega (arith, text_len-before_trimmed c (trim_end s), text_len-trim_end s)

text_len-trim_start : (s : String) → text_len (trim_start s) ≤ text_len s
unfolding text_len trim_start
text_len-trim_start [] = omega arith
text_len-trim_start (c ∷ s) = ground (arith, text_len-trim_start s)

pub text_len-trim : (s : String) → text_len (trim s) ≤ text_len s
unfolding trim
text_len-trim s = omega (arith, text_len-trim_start (trim_end s), text_len-trim_end s)

operator_here-fits :
    (op : String) (depth : ℤ) (prev : Option Char) (byte : ℕ) (rest : String)
    → operator_here op depth prev byte rest ≡ true
    → text_len op + 2 ≤ text_len rest
unfolding operator_here
operator_here-fits op depth prev byte rest h = ground arith

operator_here-none :
    (op : String) (depth : ℤ) (byte : ℕ) (rest : String)
    → operator_here op depth none byte rest ≡ false
unfolding operator_here
operator_here-none op depth byte rest = ground arith

-- An operator stands behind a blank, and all of it with the blanks around lies in the text.
operator_from-bounds :
    (op : String) (depth : ℤ) (prev : Option Char) (i : ℕ) (s : String) (p : ℕ)
    → operator_from op depth prev i s ≡ some p
    → (i ≤ p) × (p + text_len op + 2 ≤ i + text_len s)
unfolding operator_from text_len
operator_from-bounds op depth prev i [] p h = absurd (ground arith)
operator_from-bounds op depth prev i (c ∷ s) p h =
    elim (Bool-cases (operator_here op depth prev (code c) (c ∷ s))) [
      | inl e ↦ (ground arith, ground (arith, operator_here-fits op depth prev (code c) (c ∷ s) e))
      | inr e ↦
          let later =
            operator_from-bounds op (depth_after depth (code c)) (some c) (suc i) s p
              (ground arith) in
          (omega (arith, later.0), omega (arith, later.1))
    ]

operator_from-start :
    (op : String) (depth : ℤ) (s : String) (p : ℕ)
    → operator_from op depth none 0 s ≡ some p
    → 1 ≤ p
unfolding operator_from
operator_from-start op depth [] p h = absurd (ground arith)
operator_from-start op depth (c ∷ s) p h =
    let none_here = operator_here-none op depth (code c) (c ∷ s) in
    (operator_from-bounds op (depth_after depth (code c)) (some c) 1 s p (ground arith)).0

-- The two sides of an operator are shorter than the text.
split_by_operator-shorter :
    (expr op left right : String)
    → split_by_operator expr op ≡ some (left, right)
    → (text_len left < text_len expr) × (text_len right < text_len expr)
unfolding split_by_operator
split_by_operator-shorter expr op left right h =
    elim (Option-cases (operator_from op (pos 0) none 0 expr)) [
      | inl e ↦ absurd (ground arith)
      | inr (p, e) ↦
          let bounds = operator_from-bounds op (pos 0) none 0 expr p e in
          let first = operator_from-start op (pos 0) expr p e in
          (
            ground (arith, text_len-take_text (p - 1) expr),
            ground (arith, text_len-drop_text (p + text_len op + 1) expr (omega arith)),
          )
    ]

-- The texts inside a shape are shorter than a bound.
IsShorter : ℕ → Shape → Type 0
IsShorter n (wrapped inner) = text_len inner < n
IsShorter n (negated inner) = text_len inner < n
IsShorter n (either left right) = (text_len left < n) × (text_len right < n)
IsShorter n (both left right) = (text_len left < n) × (text_len right < n)
IsShorter n atom = Unit {0}

module _ (n : ℕ) where
  operated-IsShorter :
      (f : String → String → Shape) (cut : Option (String × String)) (next : Shape)
      → ((left right : String) → cut ≡ some (left, right) → IsShorter n (f left right))
      → IsShorter n next
      → IsShorter n (operated f cut next)
  operated-IsShorter f none next h k = k
  operated-IsShorter f (some (left, right)) next h k = h left right refl

  if-IsShorter :
      (test : Bool) (x y : Shape)
      → (test ≡ true → IsShorter n x)
      → IsShorter n y
      → IsShorter n (if test then x else y)
  if-IsShorter true x y h k = h refl
  if-IsShorter false x y h k = k

negated-shorter :
    (expr : String)
    → starts_with_word expr "NOT " ≡ true
    → text_len (drop_text 4 expr) < text_len expr
unfolding text_len
negated-shorter expr h =
    let fits = starts_with_word-len expr "NOT " h in
    omega (arith, fits, text_len-drop_text 4 expr (omega (arith, fits)))

wrapped-shorter :
    (expr : String)
    → 1 ≤ text_len expr
    → text_len (take_text (text_len expr - 2) (drop_text 1 expr)) < text_len expr
wrapped-shorter expr h = omega (arith, text_len-take_text (text_len expr - 2) (drop_text 1 expr))

shape_of-IsShorter_nonempty :
    (expr : String) → 1 ≤ text_len expr → IsShorter (text_len expr) (shape_of expr)
unfolding shape_of IsShorter
shape_of-IsShorter_nonempty expr h =
    let n : ℕ = text_len expr in
    if-IsShorter n (is_wrapped expr) _ _ (λ e. wrapped-shorter expr h)
      (operated-IsShorter n either (split_by_operator expr "OR") _
        (λ left right e. split_by_operator-shorter expr "OR" left right e)
        (operated-IsShorter n both (split_by_operator expr "AND") _
          (λ left right e. split_by_operator-shorter expr "AND" left right e)
          (if-IsShorter n (starts_with_word expr "NOT ") _ _ (λ e. negated-shorter expr e) tt)))

shape_of-IsShorter : (expr : String) → IsShorter (text_len expr) (shape_of expr)
unfolding shape_of IsShorter text_len
shape_of-IsShorter [] = tt
shape_of-IsShorter (c ∷ s) = shape_of-IsShorter_nonempty (c ∷ s) (omega arith)

-- A run that is not out of fuel.
abbrev pub IsDone : {A : Type 0} → Option A → Type 0
IsDone r = r ≢ none

pub some-IsDone : {A : Type 0} (a : A) → IsDone (some a)
some-IsDone a = λ p. ground arith

and_right-IsDone :
    (f : ConditionOp → ConditionOp) (r : Option (Result Failure ConditionOp))
    → IsDone r
    → IsDone (and_right f r)
and_right-IsDone f none h = h
and_right-IsDone f (some (ok a)) h = some-IsDone _
and_right-IsDone f (some (err e)) h = some-IsDone _

combine-IsDone :
    (f : ConditionOp → ConditionOp → ConditionOp) (left right : Option (Result Failure ConditionOp))
    → IsDone left
    → IsDone right
    → IsDone (combine f left right)
combine-IsDone f none right h k = λ p. h refl
combine-IsDone f (some (ok a)) right h k = and_right-IsDone (f a) right k
combine-IsDone f (some (err e)) right h k = some-IsDone _

module _ (patterns : Patterns) where
  parse_shape-IsDone :
      (fuel : ℕ) (expr : String) (shape : Shape)
      → ((text : String) → text_len text < fuel → IsDone (parse_condition_expr patterns fuel text))
      → IsShorter fuel shape
      → IsDone (parse_shape patterns (parse_condition_expr patterns fuel) expr shape)
  unfolding IsShorter
  parse_shape-IsDone fuel expr (wrapped inner) again h = again inner h
  parse_shape-IsDone fuel expr (negated inner) again h = and_right-IsDone not _ (again inner h)
  parse_shape-IsDone fuel expr (either left right) again (h, k) =
      combine-IsDone or _ _ (again left h) (again right k)
  parse_shape-IsDone fuel expr (both left right) again (h, k) =
      combine-IsDone and _ _ (again left h) (again right k)
  parse_shape-IsDone fuel expr atom again h = some-IsDone _

  IsShorter-up : (n m : ℕ) (shape : Shape) → n ≤ m → IsShorter n shape → IsShorter m shape
  unfolding IsShorter
  IsShorter-up n m (wrapped inner) p h = omega (arith, h, p)
  IsShorter-up n m (negated inner) p h = omega (arith, h, p)
  IsShorter-up n m (either left right) p (h, k) = (omega (arith, h, p), omega (arith, k, p))
  IsShorter-up n m (both left right) p (h, k) = (omega (arith, h, p), omega (arith, k, p))
  IsShorter-up n m atom p h = tt

  -- The parser of conditions comes to an end on every text: fuel above the length of the text is
  -- enough, since every recursive call, inside parentheses, on the sides of OR and AND and behind
  -- NOT, is on a shorter text.
  pub parse_condition_expr-IsDone :
      (fuel : ℕ) (text : String)
      → text_len text < fuel
      → parse_condition_expr patterns fuel text ≢ none
  unfolding parse_condition_expr
  parse_condition_expr-IsDone zero text h = absurd (omega arith)
  parse_condition_expr-IsDone (suc fuel) text h =
      parse_shape-IsDone fuel (trim text) (shape_of (trim text))
        (λ inner k. parse_condition_expr-IsDone fuel inner k)
        (IsShorter-up (text_len (trim text)) fuel _ (omega (arith, text_len-trim text, h))
          (shape_of-IsShorter (trim text)))
