-- ===== src/Json/Value.antt =====
-- JSON values and what the language does with them: member access, spread with an overridden
-- member, truth and the tests of `typeof` and `Array.isArray`.
use gocourier.Common.{
  ℕ, Bool, true, false, not, Option, none, some, List, [], ◌∷◌, String, if◌then◌else◌, str_eq,
  is_empty, ◌==◌, ◌+◌, decimal,
}

-- A number that is no natural number keeps its numeral: the program never computes with one.
mutual
  pub data Json : Type 0 where
    null : Json
    bool : Bool → Json
    num : ℕ → Json
    real : String → Json
    str : String → Json
    arr : Items → Json
    obj : Object → Json

  pub data Items : Type 0 where
    nil : Items
    cons : Json → Items → Items

  pub data Object : Type 0 where
    end : Object
    field : String → Json → Object → Object

-- `o[k]`, where `none` is `undefined`.
unfoldable pub get : String → Object → Option Json
get k end = none
get k (field j v o) = if str_eq j k then some v else get k o

-- `{ ...o, [k]: v }`: a member that is there keeps its place.
unfoldable pub assign : String → Json → Object → Object
assign k v end = field k v end
assign k v (field j w o) = if str_eq j k then field j v o else field j w (assign k v o)

-- `v ?? …` takes the right side at `null` and at `undefined`.
unfoldable pub present : Option Json → Option Json
present none = none
present (some null) = none
present (some v) = some v

-- `v.k` of a value that is held to be an object, for a name `k` that is no index and not `length`; a member
-- of any other value is `undefined`.
unfoldable pub member : String → Json → Option Json
unfolding get
member k (obj o) = get k o
member k v = none

-- The characters of a text, and the elements of an array, under their indices from `n` on.
unfoldable char_members : ℕ → String → Object
char_members n String.[] = end
char_members n (String.◌∷◌ c s) = field (decimal n) (str (String.◌∷◌ c "")) (char_members (n + 1) s)

unfoldable item_members : ℕ → Items → Object
item_members n nil = end
item_members n (cons v xs) = field (decimal n) v (item_members (n + 1) xs)

-- The members that `...v` copies: those of an object, those of a text or an array by index, and none of
-- null, a number or a Boolean.
unfoldable pub spread : Json → Object
unfolding char_members item_members
spread (obj o) = o
spread (str s) = char_members 0 s
spread (arr xs) = item_members 0 xs
spread v = end

-- `v ? … : …`
unfoldable pub is_truthy : Json → Bool
is_truthy null = false
is_truthy (bool b) = b
is_truthy (num n) = not (n == 0)
is_truthy (real s) = true
is_truthy (str s) = not (is_empty s)
is_truthy (arr xs) = true
is_truthy (obj o) = true

-- `typeof v === 'object'`, which null and arrays pass.
unfoldable pub is_object_type : Json → Bool
is_object_type null = true
is_object_type (arr xs) = true
is_object_type (obj o) = true
is_object_type v = false

-- `Array.isArray(v)`
unfoldable pub is_array : Json → Bool
is_array (arr xs) = true
is_array v = false

-- `Object.keys(o).length === 0`
unfoldable pub has_no_keys : Object → Bool
has_no_keys end = true
has_no_keys (field _ _ _) = false

-- `o` without a member: what reading cannot tell from a member that is `undefined`.
unfoldable pub omit : String → Object → Object
omit k end = end
omit k (field j v o) = if str_eq j k then omit k o else field j v (omit k o)

-- `{ ...o, [k]: v }` for a value that may be `undefined`.
unfoldable pub assign? : String → Option Json → Object → Object
unfolding assign omit
assign? k (some v) o = assign k v o
assign? k none o = omit k o

-- An object literal of values that may be `undefined`.
unfoldable pub object_of : List (String × Option Json) → Object
object_of [] = end
object_of ((k, none) ∷ fs) = object_of fs
object_of ((k, some v) ∷ fs) = field k v (object_of fs)
