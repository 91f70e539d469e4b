-- ===== src/Api/Client/Normal.antt =====
-- What the normalizers of web/src/api/client.ts guarantee of any JSON value.
use gocourier.Common.{
  ◌≡◌, refl, subst, ◌≢◌, ◌↔◌, ◌⊎◌, inl, inr, false, Option, none, some, List, [], ◌∷◌, String,
  arith, any, ◌or_else◌, str_eq,
}
use gocourier.Json.Value.{
  Json, null, bool, num, real, str, arr, obj, Object, get, assign, present, member, spread,
}
use gocourier.Json.Laws.{get-assign, assign-get}
use gocourier.Api.Result.{returned, type_error, read}
use gocourier.Api.Client.{parse_json_field, object_or_null, as_delivery_row}

-- Null or an object: never a text, an array or another value, and never `undefined`.
abbrev pub IsObjectOrNull : Option Json → Type 0
IsObjectOrNull (some null) = Unit
IsObjectOrNull (some (obj o)) = Unit
IsObjectOrNull _ = ⊥

-- Neither null nor `undefined`.
abbrev pub IsPresent : Option Json → Type 0
IsPresent none = ⊥
IsPresent (some null) = ⊥
IsPresent (some _) = Unit

-- The members that `asDeliveryRow` sets.
abbrev pub row_members : List String
row_members = "last_error" ∷ "priority" ∷ "recipient" ∷ "template" ∷ "payload" ∷ "scheduled_at" ∷ []

-- A row as the interface `DeliveryRow` wants it, for the members that are made up.
pub record IsRow (d : Json) (o : Object) : Type 0 where
  pub last_error : IsPresent (get "last_error" o)
  pub priority : IsPresent (get "priority" o)
  pub recipient : IsObjectOrNull (get "recipient" o)
  pub template : IsObjectOrNull (get "template" o)
  pub payload : IsObjectOrNull (get "payload" o)
  pub scheduled_at : get "scheduled_at" o ≢ none
  pub kept : (k : String) → any (λ m. str_eq m k) row_members ≡ false → get k o ≡ get k (spread d)

present-IsPresent :
    (v : Option Json) (w : Json) → IsPresent (some w) → IsPresent (some (present v or_else w))
unfolding present
present-IsPresent none w h = h
present-IsPresent (some null) w h = h
present-IsPresent (some _) w h = tt

object_or_null-Is : (o : Option Object) → IsObjectOrNull (some (object_or_null o))
unfolding object_or_null
object_or_null-Is none = tt
object_or_null-Is (some o) = tt

or_null-defined : (v : Option Json) → ◌≢◌ {A = Option Json} (some (v or_else null)) none
or_null-defined v h = cc

-- Members that are as they should be are set to what they are.
assign-present :
    (k : String) (v : Json) (o : Object)
    → IsPresent (get k o)
    → assign k (present (get k o) or_else v) o ≡ o
unfolding present
assign-present k v o h = by_value (get k o) refl h
  where
    by_value :
        (g : Option Json) → get k o ≡ g → IsPresent g → assign k (present (get k o) or_else v) o ≡ o
    by_value none e p = absurd p
    by_value (some null) e p = absurd p
    by_value (some (bool b)) e p = rw e (assign-get k _ o e)
    by_value (some (num n)) e p = rw e (assign-get k _ o e)
    by_value (some (real s)) e p = rw e (assign-get k _ o e)
    by_value (some (str s)) e p = rw e (assign-get k _ o e)
    by_value (some (arr xs)) e p = rw e (assign-get k _ o e)
    by_value (some (obj m)) e p = rw e (assign-get k _ o e)

assign-or_null :
    (k : String) (o : Object) → get k o ≢ none → assign k (present (get k o) or_else null) o ≡ o
unfolding present
assign-or_null k o h = by_value (get k o) refl
  where
    by_value : (g : Option Json) → get k o ≡ g → assign k (present (get k o) or_else null) o ≡ o
    by_value none e = absurd (h e)
    by_value (some null) e = rw e (assign-get k _ o e)
    by_value (some _) e = rw e (assign-get k _ o e)

assign-object :
    (parse : String → Option Json) (k : String) (o : Object)
    → IsObjectOrNull (get k o)
    → assign k (object_or_null (parse_json_field parse (get k o))) o ≡ o
unfolding object_or_null parse_json_field
assign-object parse k o h = by_value (get k o) refl h
  where
    by_value :
        (g : Option Json)
        → get k o ≡ g
        → IsObjectOrNull g
        → assign k (object_or_null (parse_json_field parse (get k o))) o ≡ o
    by_value (some null) e p = rw e (assign-get k _ o e)
    by_value (some (obj m)) e p = rw e (assign-get k _ o e)
    by_value none e p = absurd p
    by_value (some _) e p = absurd p

module _ (parse : String → Option Json) where
  -- The row that `asDeliveryRow` makes of a value that is not null.
  row : Json → Object
  row d = assign "scheduled_at" (present (member "scheduled_at" d) or_else null) (
      assign "payload" (object_or_null (parse_json_field parse (member "payload" d))) (
        assign "template" (object_or_null (parse_json_field parse (member "template" d))) (
          assign "recipient" (object_or_null (parse_json_field parse (member "recipient" d))) (
            assign "priority" (present (member "priority" d) or_else str "normal")
              (assign "last_error" (present (member "last_error" d) or_else str "") (spread d))))))

  as_delivery_row-cases :
      (d : Json)
      → (as_delivery_row parse d ≡ type_error) ⊎ (as_delivery_row parse d ≡ returned (row d))
  unfolding as_delivery_row read row
  as_delivery_row-cases null = inl refl
  as_delivery_row-cases _ = inr refl

  row-IsRow : (d : Json) → IsRow d (row d)
  unfolding row
  row-IsRow d = record {
    last_error = simp get-assign (present-IsPresent (member "last_error" d) (str "") tt);
    priority = simp get-assign (present-IsPresent (member "priority" d) (str "normal") tt);
    recipient = simp get-assign (object_or_null-Is _);
    template = simp get-assign (object_or_null-Is _);
    payload = simp get-assign (object_or_null-Is _);
    scheduled_at = simp get-assign (or_null-defined (present (member "scheduled_at" d)));
    kept = λ k h. simp get-assign (ground arith);
  }

  pub as_delivery_row-IsRow :
      (d : Json) (o : Object) → as_delivery_row parse d ≡ returned o → IsRow d o
  as_delivery_row-IsRow d o h = elim (as_delivery_row-cases d) [
    | inl e ↦ cc
    | inr e ↦ let q : row d ≡ o = cc in subst (IsRow d) q (row-IsRow d)
  ]

  -- Null is the only value for a row at which `asDeliveryRow` throws.
  pub as_delivery_row-throws : (d : Json) → (as_delivery_row parse d ≡ type_error) ↔ (d ≡ null)
  unfolding as_delivery_row read
  as_delivery_row-throws null = (λ _. refl, λ _. refl)
  as_delivery_row-throws _ = (λ h. cc, λ h. cc)

  -- A row that `asDeliveryRow` returned is returned as it is when it is normalized once more.
  pub as_delivery_row-idempotent :
      (d : Json) (o : Object)
      → as_delivery_row parse d ≡ returned o
      → as_delivery_row parse (obj o) ≡ returned o
  unfolding as_delivery_row read member spread
  as_delivery_row-idempotent d o h =
      let r = as_delivery_row-IsRow d o h in
      rw (
        assign-present "last_error" (str "") o r.last_error,
        assign-present "priority" (str "normal") o r.priority,
        assign-object parse "recipient" o r.recipient,
        assign-object parse "template" o r.template,
        assign-object parse "payload" o r.payload,
        assign-or_null "scheduled_at" o r.scheduled_at,
      )
