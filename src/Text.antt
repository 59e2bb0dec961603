-- ===== src/Text.antt =====
-- Rust's `str` operations on the native text, character by character. Every text is valid UTF-8,
-- so a comparison of characters is a comparison of bytes.
pub mod Affix
pub mod Utf8
pub mod Decimal
pub mod Words
pub mod Slices
use Prim.Native.Char.{Char, code}
use Prim.Native.String.{[], ◌∷◌}
use ruststack.Prelude.{
  ℕ, ◌+◌, String, Bool, true, false, ◌||◌, ◌&&◌, Option, none, some, eqb, ltb, leb, if◌then◌else◌,
  is_some, ◌==◌, string_eq,
}

abbrev pub is_code : ℕ → Char → Bool
is_code n c = eqb (code c) n

-- `s.strip_prefix(p)`
unfoldable pub strip_prefix : String → String → Option String
strip_prefix s [] = some s
strip_prefix [] (c ∷ p) = none
strip_prefix (d ∷ s) (c ∷ p) =
    let rest = strip_prefix s p in if eqb (code d) (code c) then rest else none

unfoldable pub starts_with : String → String → Bool
unfolding strip_prefix
starts_with s p = is_some (strip_prefix s p)

unfoldable pub ends_with : String → String → Bool
ends_with [] q = [] == q
ends_with (c ∷ s) q = (c ∷ s) == q || ends_with s q

abbrev prepend : Char → Option String → Option String
prepend c none = none
prepend c (some s) = some (c ∷ s)

-- `s.strip_suffix(c)` at the character whose code is `n`
unfoldable pub strip_suffix_code : ℕ → String → Option String
strip_suffix_code n [] = none
strip_suffix_code n (c ∷ []) = if is_code n c then some [] else none
strip_suffix_code n (c ∷ d ∷ s) = prepend c (strip_suffix_code n (d ∷ s))

-- `s.strip_prefix(c)` at the character whose code is `n`
unfoldable pub strip_prefix_code : ℕ → String → Option String
strip_prefix_code n [] = none
strip_prefix_code n (c ∷ s) = if is_code n c then some s else none

unfoldable pub has_code : ℕ → String → Bool
has_code n [] = false
has_code n (c ∷ s) = is_code n c || has_code n s

abbrev before : Char → Option (String × String) → Option (String × String)
before c none = none
before c (some (p, s)) = some (c ∷ p, s)

-- `s.find(c)` with the two slices around the position, at the character whose code is `n`
unfoldable pub split_at_code : ℕ → String → Option (String × String)
split_at_code n [] = none
split_at_code n (c ∷ s) =
    let rest = split_at_code n s in if is_code n c then some ([], s) else before c rest

-- The bytes of a character in UTF-8, and `s.len()`.
abbrev utf8_width : Char → ℕ
utf8_width c =
    if ltb (code c) 0x80
    then 1
    else if ltb (code c) 0x800
    then 2
    else if ltb (code c) 0x10000
    then 3
    else 4

unfoldable pub byte_len : String → ℕ
byte_len [] = 0
byte_len (c ∷ s) = utf8_width c + byte_len s

abbrev pub ascii_lower : ℕ → ℕ
ascii_lower n = if leb 65 n && leb n 90 then n + 32 else n

unfoldable pub eq_ignore_ascii_case : String → String → Bool
eq_ignore_ascii_case [] [] = true
eq_ignore_ascii_case [] (d ∷ t) = false
eq_ignore_ascii_case (c ∷ s) [] = false
eq_ignore_ascii_case (c ∷ s) (d ∷ t) =
    eqb (ascii_lower (code c)) (ascii_lower (code d)) && eq_ignore_ascii_case s t
