-- ===== src/Text/Words.antt =====
-- Rust's `split` at a character and `trim`, on the native text.
use Prim.Native.Char.{Char, code}
use ruststack.Text.{strip_prefix}
use ruststack.Text.Slices.{text_len}
use ruststack.Prelude.{
  zero, suc, ◌-◌, is_some, ℕ, String, Bool, ◌||◌, ◌&&◌, List, [], ◌∷◌, map, eqb, leb, if◌then◌else◌,
}

-- The character before the first part.
abbrev pub to_first : Char → List String → List String
to_first c [] = String.◌∷◌ c String.[] ∷ []
to_first c (part ∷ parts) = String.◌∷◌ c part ∷ parts

-- `s.split(c)` at the character whose code is `n`
unfoldable pub split_at_each : ℕ → String → List String
split_at_each n String.[] = String.[] ∷ []
split_at_each n (String.◌∷◌ c s) =
    let parts = split_at_each n s in if eqb (code c) n then String.[] ∷ parts else to_first c parts

-- `char::is_whitespace`, on the code
unfoldable pub is_whitespace : ℕ → Bool
is_whitespace n =
    (leb 9 n && leb n 13)
    || eqb n 32
    || eqb n 0x85
    || eqb n 0xA0
    || eqb n 0x1680
    || (leb 0x2000 n && leb n 0x200A)
    || eqb n 0x2028
    || eqb n 0x2029
    || eqb n 0x202F
    || eqb n 0x205F
    || eqb n 0x3000

unfoldable pub trim_start : String → String
unfolding is_whitespace
trim_start String.[] = String.[]
trim_start (String.◌∷◌ c s) =
    let rest = trim_start s in if is_whitespace (code c) then rest else String.◌∷◌ c s

-- A character before a text that is trimmed at its end.
abbrev pub before_trimmed : Char → String → String
before_trimmed c String.[] = if is_whitespace (code c) then String.[] else String.◌∷◌ c String.[]
before_trimmed c (String.◌∷◌ d s) = String.◌∷◌ c (String.◌∷◌ d s)

unfoldable pub trim_end : String → String
unfolding is_whitespace
trim_end String.[] = String.[]
trim_end (String.◌∷◌ c s) = before_trimmed c (trim_end s)

unfoldable pub trim : String → String
unfolding trim_start trim_end
trim s = trim_start (trim_end s)

-- `s.split(c).map(str::trim)`
unfoldable pub split_trimmed : ℕ → String → List String
unfolding split_at_each trim
split_trimmed n s = map trim (split_at_each n s)

-- The character at a position, or the other one.
unfoldable pub char_or : Char → ℕ → String → Char
char_or d n String.[] = d
char_or d zero (String.◌∷◌ c s) = c
char_or d (suc n) (String.◌∷◌ c s) = char_or d n s

abbrev ascii_lower_char : Char → Char
ascii_lower_char c =
    if leb 65 (code c) && leb (code c) 90
    then char_or c (code c - 65) "abcdefghijklmnopqrstuvwxyz"
    else c

-- `to_lowercase` on ASCII text
unfoldable pub lower : String → String
unfolding char_or
lower String.[] = String.[]
lower (String.◌∷◌ c s) = String.◌∷◌ (ascii_lower_char c) (lower s)

-- `s.split(p)` at a text that is not empty, with `skip` characters of a match still to pass over
unfoldable pub split_text_from : String → ℕ → String → List String
unfolding strip_prefix text_len
split_text_from p skip String.[] = String.[] ∷ []
split_text_from p (suc skip) (String.◌∷◌ c s) = split_text_from p skip s
split_text_from p zero (String.◌∷◌ c s) =
    let found = is_some (strip_prefix (String.◌∷◌ c s) p) in
    let rest = split_text_from p (if found then text_len p - 1 else 0) s in
    if found then String.[] ∷ rest else to_first c rest

unfoldable pub split_text : String → String → List String
unfolding split_text_from
split_text p s = split_text_from p 0 s
