-- ===== src/Api/Result.antt =====
-- What an `async` function of web/src/api/client.ts comes to: a value, or an error with its message.
use gocourier.Common.{Option, none, some, String}
use gocourier.Json.Value.{Json, null, Items, nil, cons, arr, member, Object}

pub data Result {ℓ} (A : Type ℓ) : Type ℓ where
  returned : A → Result A
  thrown : String → Result A

infixl 5 ◌>>=◌
abbrev pub ◌>>=◌ {ℓ κ} : {A : Type ℓ} {B : Type κ} → Result A → (A → Result B) → Result B
returned a >>= f = f a
thrown e >>= f = thrown e

-- A `TypeError`; its wording is the engine's, and is not modelled.
abbrev pub type_error {ℓ} : {A : Type ℓ} → Result A
type_error = thrown "TypeError"

-- `v.k`, which throws at null and at `undefined`.
unfoldable pub read : String → Option Json → Result (Option Json)
unfolding member
read k none = type_error
read k (some null) = type_error
read k (some v) = returned (member k v)

module _ (f : Json → Result Object) where
  -- `.map(f)` on the elements, which ends at the first error.
  unfoldable pub map_objects : Items → Result Items
  map_objects nil = returned nil
  map_objects (cons x xs) = do o ← f x; os ← map_objects xs; returned (cons (Json.obj o) os)

  -- `(v ?? []).map(f)`: what is not an array has no `map`.
  unfoldable pub map_present : Option Json → Result Items
  unfolding map_objects
  map_present none = returned nil
  map_present (some (arr xs)) = map_objects xs
  map_present (some v) = type_error
