-- ===== src/Server/Words.antt =====
-- What internal/domain uses of the Go package `strings` to read a channel or a priority.
use Prim.Native.Char.{Char, code, len_utf8}
use gocourier.Common.{
  ℕ, ◌+◌, ◌-◌, Bool, ◌&&◌, ◌||◌, List, [], ◌∷◌, String, if◌then◌else◌, leb, ◌==◌, is_empty,
  get_elem?, ◌or_else◌,
}

abbrev between : ℕ → ℕ → ℕ → Bool
between lo hi c = leb lo c && leb c hi

-- `unicode.IsSpace`.
abbrev is_space : Char → Bool
is_space c =
    between 9 13 (code c)
    || (code c == 32)
    || (code c == 0x85)
    || (code c == 0xa0)
    || (code c == 0x1680)
    || between 0x2000 0x200a (code c)
    || between 0x2028 0x2029 (code c)
    || (code c == 0x202f)
    || (code c == 0x205f)
    || (code c == 0x3000)

trim_left : String → String
trim_left String.[] = ""
trim_left (String.◌∷◌ c s) = let rest = trim_left s in if is_space c then rest else String.◌∷◌ c s

trim_right : String → String
trim_right String.[] = ""
trim_right (String.◌∷◌ c s) =
    let rest = trim_right s in if is_empty rest && is_space c then "" else String.◌∷◌ c rest

-- `strings.TrimSpace(s)`.
unfoldable pub trim_space : String → String
unfolding trim_left trim_right
trim_space s = trim_right (trim_left s)

abbrev small_letters : List Char
small_letters =
    "a" ∷ "b" ∷ "c" ∷ "d" ∷ "e" ∷ "f" ∷ "g" ∷ "h" ∷ "i" ∷ "j" ∷ "k" ∷ "l" ∷ "m" ∷ "n" ∷ "o" ∷ "p"
    ∷ "q" ∷ "r" ∷ "s" ∷ "t" ∷ "u" ∷ "v" ∷ "w" ∷ "x" ∷ "y" ∷ "z" ∷ []

-- `unicode.ToLower`, as far as the result is in ASCII: the letters A to Z, İ and the Kelvin sign. The
-- other letters have lower cases outside ASCII, which no comparison here sees; they stay as they are.
lower_char : Char → Char
lower_char c =
    if between b'A' b'Z' (code c)
    then get_elem? small_letters (code c - b'A') or_else c
    else if code c == 0x130
    then "i"
    else if code c == 0x212a
    then "k"
    else c

-- `strings.ToLower(s)`.
unfoldable pub to_lower : String → String
unfolding lower_char
to_lower String.[] = ""
to_lower (String.◌∷◌ c s) = String.◌∷◌ (lower_char c) (to_lower s)

-- `len(s)`: the bytes of its UTF-8 form.
unfoldable pub byte_length : String → ℕ
byte_length String.[] = 0
byte_length (String.◌∷◌ c s) = len_utf8 c + byte_length s
