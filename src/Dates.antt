-- ===== src/Dates.antt =====
-- `Date` as the dashboard uses it: reading the API's timestamps (RFC 3339, with any number of digits
-- of a second's fraction), and `toISOString`. Times are milliseconds since the start of the year 0,
-- so that none is negative; `epoch` is 1970. Any other text is an invalid date here.
use Prim.Native.Char.{code}
use Prim.Native.String
use gocourier.Common.{
  ℕ, zero, suc, ◌+◌, ◌-◌, ◌*◌, ◌/◌, ◌%◌, ◌≡◌, refl, Bool, true, false, not, ◌&&◌, ◌||◌, Option,
  none, some, List, [], ◌∷◌, String, if◌then◌else◌, ltb, leb, ◌==◌, get_elem?, ◌or_else◌, decimal,
  template,
}

-- The code points of a text.
abbrev pub codes : String → List ℕ
codes String.[] = []
codes (String.◌∷◌ c s) = code c ∷ codes s

-- The milliseconds from the start of the year 0 to 1970-01-01T00:00:00Z.
abbrev pub epoch : ℕ
epoch = 62167219200000

abbrev is_leap : ℕ → Bool
is_leap y = (y % 4 == 0) && (not (y % 100 == 0) || (y % 400 == 0))

-- The days of the years before a year.
abbrev pub days_before_year : ℕ → ℕ
days_before_year y = 365 * y + (y + 3) / 4 + (y + 399) / 400 - (y + 99) / 100

abbrev month_days : ℕ → List ℕ
month_days y =
    31 ∷ (if is_leap y then 29 else 28) ∷ 31 ∷ 30 ∷ 31 ∷ 30 ∷ 31 ∷ 31 ∷ 30 ∷ 31 ∷ 30 ∷ 31 ∷ []

-- The days of the first months of a list.
days_of_months : ℕ → List ℕ → ℕ
days_of_months zero ms = 0
days_of_months (suc n) [] = 0
days_of_months (suc n) (d ∷ ms) = d + days_of_months n ms

infixl 5 ◌>>=◌ ◌>>◌
abbrev ◌>>=◌ : {A B : Type 0} → Option A → (A → Option B) → Option B
none >>= f = none
some a >>= f = f a

abbrev ◌>>◌ : {B : Type 0} → Option (Unit {0}) → Option B → Option B
m >> k = m >>= λ _. k

abbrev check : Bool → Option (Unit {0})
check true = some tt
check false = none

digit : ℕ → Option ℕ
digit c = if leb b'0' c && leb c b'9' then some (c - b'0') else none

-- A number of exactly so many digits.
number : ℕ → ℕ → List ℕ → Option (ℕ × List ℕ)
unfolding digit
number zero acc cs = some (acc, cs)
number (suc n) acc [] = none
number (suc n) acc (c ∷ cs) = elim (digit c) [ none ↦ none | some d ↦ number n (acc * 10 + d) cs ]

expect : ℕ → List ℕ → Option (List ℕ)
expect c [] = none
expect c (d ∷ cs) = if d == c then some cs else none

-- The digits of a fraction: the first three are milliseconds, the others are dropped.
fraction : ℕ → ℕ → List ℕ → ℕ × List ℕ
unfolding digit
fraction scale acc [] = (acc, [])
fraction scale acc (c ∷ cs) = elim (digit c) [
  | none ↦ (acc, c ∷ cs)
  | some d ↦ fraction (scale / 10) (acc + d * scale) cs
]

millis : List ℕ → Option (ℕ × List ℕ)
unfolding digit fraction
millis [] = none
millis (c ∷ []) = some (0, c ∷ [])
millis (c ∷ d ∷ cs) =
    if c == b'.'
    then elim (digit d) [ none ↦ none | some _ ↦ some (fraction 100 0 (d ∷ cs)) ]
    else some (0, c ∷ d ∷ cs)

is_end : List ℕ → Bool
is_end [] = true
is_end (_ ∷ _) = false

-- The offset from UTC, in minutes, east and west apart.
offset : List ℕ → Option (ℕ × ℕ)
unfolding number expect is_end
offset [] = none
offset (c ∷ cs) = if c == b'Z' then (if is_end cs then some (0, 0) else none) else do
  (hh, cs) ← number 2 0 cs
  cs ← expect b':' cs
  (mm, cs) ← number 2 0 cs
  check (ltb hh 24 && ltb mm 60)
  check (is_end cs)
  if c == b'+' then some (hh * 60 + mm, 0) else if c == b'-' then some (0, hh * 60 + mm) else none

-- `new Date(iso).getTime()`, where `none` is NaN.
unfoldable pub get_time : String → Option ℕ
unfolding number expect millis offset days_of_months
get_time iso = do
  (y, cs) ← number 4 0 (codes iso)
  cs ← expect b'-' cs
  (mo, cs) ← number 2 0 cs
  cs ← expect b'-' cs
  (d, cs) ← number 2 0 cs
  cs ← expect b'T' cs
  (hh, cs) ← number 2 0 cs
  cs ← expect b':' cs
  (mi, cs) ← number 2 0 cs
  cs ← expect b':' cs
  (s, cs) ← number 2 0 cs
  (ms, cs) ← millis cs
  (east, west) ← offset cs
  check (leb 1 mo && leb mo 12 && leb 1 d && leb d (get_elem? (month_days y) (mo - 1) or_else 0))
  check (ltb hh 24 && ltb mi 60 && ltb s 60)
  let days = days_before_year y + days_of_months (mo - 1) (month_days y) + (d - 1)
  some ((((days * 24 + hh) * 60 + mi + west - east) * 60 + s) * 1000 + ms)

-- The month, from 0, and the day, from 1, of a day of the year.
month_day : ℕ → ℕ → List ℕ → ℕ × ℕ
month_day m day [] = (m, suc day)
month_day m day (n ∷ ns) =
    let later = month_day (suc m) (day - n) ns in if ltb day n then (m, suc day) else later

year_of : ℕ → ℕ
year_of days =
    let y = days * 400 / 146097 in
    if leb (days_before_year (y + 1)) days
    then y + 1
    else if ltb days (days_before_year y)
    then y - 1
    else y

-- A number with zeros in front, to a width of two, three or four digits.
pad : ℕ → ℕ → String
pad zero n = ""
pad (suc w) n = String.◌++◌ (pad w (n / 10)) (decimal (n % 10))

-- `date.toISOString()`, for a valid date of the years 0 to 9999.
unfoldable pub to_iso_string : ℕ → String
unfolding month_day year_of pad template decimal
to_iso_string t =
    let days = t / 86400000 in
    let y = year_of days in
    let md = month_day 0 (days - days_before_year y) (month_days y) in
    template (
      pad 4 y
      ∷ "-"
      ∷ pad 2 (md.0 + 1)
      ∷ "-"
      ∷ pad 2 md.1
      ∷ "T"
      ∷ pad 2 (t / 3600000 % 24)
      ∷ ":"
      ∷ pad 2 (t / 60000 % 60)
      ∷ ":"
      ∷ pad 2 (t / 1000 % 60)
      ∷ "."
      ∷ pad 3 (t % 1000)
      ∷ "Z"
      ∷ [])

epoch_time : get_time "1970-01-01T00:00:00Z" ≡ some epoch
unfolding get_time
epoch_time = refl

nanoseconds : get_time "2024-02-29T23:59:59.123456789+02:00" ≡ get_time "2024-02-29T21:59:59.123Z"
unfolding get_time
nanoseconds = refl

no_date : get_time "2023-02-29T00:00:00Z" ≡ none
unfolding get_time
no_date = refl

iso_round_trip : to_iso_string (epoch + 1709243999123) ≡ "2024-02-29T21:59:59.123Z"
unfolding to_iso_string
iso_round_trip = refl
