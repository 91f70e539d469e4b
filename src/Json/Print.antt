-- ===== src/Json/Print.antt =====
-- `JSON.stringify(value, null, 2)`: each member on a line of its own, two spaces deeper.
use Prim.Native.Nat.{ℕ, zero, suc, ◌/◌, ◌%◌}
use Prim.Native.Char.{Char, code}
use Prim.Native.String
use Prim.Native.String.{String}
use gocourier.Common.{
  ◌≡◌, refl, true, false, [], ◌∷◌, if◌then◌else◌, ltb, ◌==◌, template, decimal, digits, get_elem?,
  ◌or_else◌,
}
use gocourier.Json.Value.{
  Json, null, bool, num, real, str, arr, obj, Items, nil, cons, Object, end, field,
}

-- A control character that has no short escape: `\u00` and two hexadecimal digits.
hex_escape : ℕ → String
hex_escape c = template (
    "\\u00"
    ∷ (get_elem? digits (c / 16) or_else "0")
    ∷ (get_elem? digits (c % 16) or_else "0")
    ∷ [])

escape_char : Char → String
unfolding hex_escape
escape_char ch =
    let c = code ch in
    if c == b'"'
    then "\\\""
    else if c == 92
    then "\\\\"
    else if c == 8
    then "\\b"
    else if c == 12
    then "\\f"
    else if c == 10
    then "\\n"
    else if c == 13
    then "\\r"
    else if c == 9
    then "\\t"
    else if ltb c 32
    then hex_escape c
    else String.◌∷◌ ch ""

escape : String → String
unfolding escape_char
escape String.[] = ""
escape (String.◌∷◌ c s) = String.◌++◌ (escape_char c) (escape s)

quote : String → String
unfolding escape
quote s = template ("\"" ∷ escape s ∷ "\"" ∷ [])

-- A new line, and the indentation of a depth.
line : ℕ → String
line zero = "\n"
line (suc depth) = String.◌++◌ (line depth) "  "

unfoldable mutual
  unfolding quote line decimal template

  pub print : ℕ → Json → String
  print depth null = "null"
  print depth (bool true) = "true"
  print depth (bool false) = "false"
  print depth (num n) = decimal n
  print depth (real s) = s
  print depth (str s) = quote s
  print depth (arr nil) = "[]"
  print depth (arr (cons x xs)) = template (
      "["
      ∷ line (suc depth)
      ∷ print (suc depth) x
      ∷ print_items (suc depth) xs
      ∷ line depth
      ∷ "]"
      ∷ [])
  print depth (obj end) = "{}"
  print depth (obj (field k v o)) = template (
      "{"
      ∷ line (suc depth)
      ∷ quote k
      ∷ ": "
      ∷ print (suc depth) v
      ∷ print_members (suc depth) o
      ∷ line depth
      ∷ "}"
      ∷ [])

  pub print_items : ℕ → Items → String
  print_items depth nil = ""
  print_items depth (cons x xs) =
      template ("," ∷ line depth ∷ print depth x ∷ print_items depth xs ∷ [])

  pub print_members : ℕ → Object → String
  print_members depth end = ""
  print_members depth (field k v o) =
      template ("," ∷ line depth ∷ quote k ∷ ": " ∷ print depth v ∷ print_members depth o ∷ [])

unfoldable pub stringify : Json → String
unfolding print
stringify v = print 0 v

-- `JSON.stringify(value)`, on one line.
unfoldable mutual
  unfolding quote decimal template

  pub compact : Json → String
  compact null = "null"
  compact (bool true) = "true"
  compact (bool false) = "false"
  compact (num n) = decimal n
  compact (real s) = s
  compact (str s) = quote s
  compact (arr nil) = "[]"
  compact (arr (cons x xs)) = template ("[" ∷ compact x ∷ compact_items xs ∷ "]" ∷ [])
  compact (obj end) = "{}"
  compact (obj (field k v o)) =
      template ("{" ∷ quote k ∷ ":" ∷ compact v ∷ compact_members o ∷ "}" ∷ [])

  pub compact_items : Items → String
  compact_items nil = ""
  compact_items (cons x xs) = template ("," ∷ compact x ∷ compact_items xs ∷ [])

  pub compact_members : Object → String
  compact_members end = ""
  compact_members (field k v o) =
      template ("," ∷ quote k ∷ ":" ∷ compact v ∷ compact_members o ∷ [])

-- `String(value)`, which `new Error` takes of its message. An array joins its elements, of which null
-- is the empty text.
unfoldable mutual
  unfolding decimal template

  pub to_text : Json → String
  to_text null = "null"
  to_text (bool true) = "true"
  to_text (bool false) = "false"
  to_text (num n) = decimal n
  to_text (real s) = s
  to_text (str s) = s
  to_text (arr nil) = ""
  to_text (arr (cons x xs)) = template (element_text x ∷ rest_text xs ∷ [])
  to_text (obj o) = "[object Object]"

  pub element_text : Json → String
  element_text null = ""
  element_text (bool true) = "true"
  element_text (bool false) = "false"
  element_text (num n) = decimal n
  element_text (real s) = s
  element_text (str s) = s
  element_text (arr nil) = ""
  element_text (arr (cons x xs)) = template (element_text x ∷ rest_text xs ∷ [])
  element_text (obj o) = "[object Object]"

  pub rest_text : Items → String
  rest_text nil = ""
  rest_text (cons x xs) = template ("," ∷ element_text x ∷ rest_text xs ∷ [])

stringify_nested :
    stringify (obj (field "id" (str "a\"b") (field "n" (arr (cons (num 12) (cons null nil))) end)))
    ≡ "{\n  \"id\": \"a\\\"b\",\n  \"n\": [\n    12,\n    null\n  ]\n}"
unfolding stringify
stringify_nested = refl
