-- ===== src/Text/Slices.antt =====
-- Positions in ASCII text, where a byte is a character: slices and searches of Rust's `str`.
use Prim.Native.Char.{code}
use Prim.Native.String.{[], ◌∷◌}
use ruststack.Prelude.{
  ℕ, zero, suc, ◌+◌, ◌≤◌, ◌≡◌, String, Bool, true, false, ◌&&◌, Option, none, some, eqb, arith,
  if◌then◌else◌,
}
use ruststack.Text.{ascii_lower}

unfoldable pub text_len : String → ℕ
text_len [] = 0
text_len (c ∷ s) = suc (text_len s)

-- `&s[..n]` and `&s[n..]`
unfoldable pub take_text : ℕ → String → String
take_text zero s = []
take_text (suc n) [] = []
take_text (suc n) (c ∷ s) = c ∷ take_text n s

unfoldable pub drop_text : ℕ → String → String
drop_text zero s = s
drop_text (suc n) [] = []
drop_text (suc n) (c ∷ s) = drop_text n s

-- `s.to_uppercase().starts_with(p)` where `p` is in upper case
unfoldable pub starts_with_word : String → String → Bool
starts_with_word s [] = true
starts_with_word [] (c ∷ p) = false
starts_with_word (d ∷ s) (c ∷ p) =
    eqb (ascii_lower (code d)) (ascii_lower (code c)) && starts_with_word s p

-- `s.to_lowercase().find(p)` where `p` is in lower case, counted from the position
unfoldable pub find_word : String → ℕ → String → Option ℕ
unfolding starts_with_word
find_word p i [] = if starts_with_word [] p then some i else none
find_word p i (c ∷ s) =
    let rest = find_word p (suc i) s in if starts_with_word (c ∷ s) p then some i else rest

-- `s.find(test)` of a character, by its code
unfoldable pub find_code : (ℕ → Bool) → ℕ → String → Option ℕ
find_code test i [] = none
find_code test i (c ∷ s) =
    let rest = find_code test (suc i) s in if test (code c) then some i else rest

pub text_len-take_text : (n : ℕ) (s : String) → text_len (take_text n s) ≤ n
unfolding text_len take_text
text_len-take_text zero s = omega arith
text_len-take_text (suc n) [] = omega arith
text_len-take_text (suc n) (c ∷ s) = omega (arith, text_len-take_text n s)

pub text_len-drop_text :
    (n : ℕ) (s : String) → n ≤ text_len s → text_len (drop_text n s) + n ≡ text_len s
unfolding text_len drop_text
text_len-drop_text zero s h = omega arith
text_len-drop_text (suc n) [] h = absurd (omega arith)
text_len-drop_text (suc n) (c ∷ s) h = omega (arith, text_len-drop_text n s (omega arith))

pub text_len-drop_text_le : (n : ℕ) (s : String) → text_len (drop_text n s) ≤ text_len s
unfolding text_len drop_text
text_len-drop_text_le zero s = omega arith
text_len-drop_text_le (suc n) [] = omega arith
text_len-drop_text_le (suc n) (c ∷ s) = omega (arith, text_len-drop_text_le n s)

pub starts_with_word-len : (s p : String) → starts_with_word s p ≡ true → text_len p ≤ text_len s
unfolding starts_with_word text_len
starts_with_word-len s [] h = omega arith
starts_with_word-len [] (c ∷ p) h = absurd (ground arith)
starts_with_word-len (d ∷ s) (c ∷ p) h = ground (arith, starts_with_word-len s p)
