-- ===== src/Ops/Shared.antt =====
-- What several components of web/src/components/ops have in common.
use Prim.Native.Char.{code}
use gocourier.Common.{
  ℕ, zero, suc, ◌*◌, ◌&&◌, leb, if◌then◌else◌, ◌+◌, ◌-◌, ◌/◌, Bool, true, false, Option, none, some,
  List, [], ◌∷◌, String, str_eq, not, is_empty, min, max, ◌==◌,
}
use gocourier.Dates.{epoch}

-- `xs.length === 0`
abbrev pub is_nil {ℓ} : {A : Type ℓ} → List A → Bool
is_nil [] = true
is_nil (_ ∷ _) = false

-- `o === s`, for an `o` that may be null.
abbrev pub opt_eq : Option String → String → Bool
opt_eq none s = false
opt_eq (some t) s = str_eq t s

-- `Math.max(0, Math.floor((now - t) / 1000))`, where `now` counts from 1970 and `t` from the year 0;
-- `none` is NaN.
abbrev pub age_seconds : Option ℕ → ℕ → Option ℕ
age_seconds none now = none
age_seconds (some t) now = some ((now + epoch - t) / 1000)

-- The messages of sonner's `toast`.
pub data ToastKind : Type 0 where
  success error message : ToastKind

pub record Toast : Type 0 where
  pub kind : ToastKind
  pub title : String
  pub description : Option String

-- The digits of a text, most significant first, after those of `acc`.
digits_number : ℕ → String → Option ℕ
digits_number acc String.[] = some acc
digits_number acc (String.◌∷◌ c s) =
    let rest = digits_number (acc * 10 + (code c - b'0')) s in
    if leb b'0' (code c) && leb (code c) b'9' then rest else none

-- A whole number of JavaScript, or NaN; `minus n` is -(n + 1).
pub data Number : Type 0 where
  plus minus : ℕ → Number
  nan : Number

abbrev positive : Option ℕ → Number
positive none = nan
positive (some n) = plus n

-- -0 is 0 to all that follows.
abbrev negative : Option ℕ → Number
negative none = nan
negative (some zero) = plus zero
negative (some (suc n)) = minus n

-- `Number(e.target.value)` of a number input, whose value is empty or a numeral; an empty text is 0. A
-- numeral is read if it is digits, with a minus sign or without: the model has no fractions, and takes the
-- numerals with a point or an exponent for NaN.
unfoldable pub to_number : String → Number
unfolding digits_number
to_number String.[] = plus 0
to_number (String.◌∷◌ c s) =
    if code c == b'-' && not (is_empty s)
    then negative (digits_number 0 s)
    else positive (digits_number 0 (String.◌∷◌ c s))

-- `n || d`: NaN and 0 are false.
abbrev pub number_or : Number → Number → Number
number_or nan d = d
number_or (plus zero) d = d
number_or n d = n

-- `Math.min(hi, n)` and `Math.max(lo, n)` with bounds that are not negative. The latter is not negative.
abbrev pub math_min : ℕ → Number → Number
math_min hi (plus n) = plus (min hi n)
math_min hi n = n

abbrev pub math_max : ℕ → Number → Number
math_max lo (plus n) = plus (max lo n)
math_max lo (minus n) = plus lo
math_max lo nan = nan

-- The number that is stored. It is neither negative nor NaN after `number_or` and `math_max`.
abbrev pub as_count : Number → ℕ
as_count (plus n) = n
as_count (minus n) = 0
as_count nan = 0
