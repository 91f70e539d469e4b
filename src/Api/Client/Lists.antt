-- ===== src/Api/Client/Lists.antt =====
-- The lists that the normalizers of web/src/api/client.ts return.
use gocourier.Common.{◌≡◌, refl, arith, Option, none, some, [], ◌∷◌, String, subst, ◌or_else◌}
use gocourier.Json.Value.{
  Json, arr, obj, num, Items, nil, cons, Object, end, get, object_of, present,
}
use gocourier.Api.Result.{Result, returned, thrown, ◌>>=◌, read, map_objects, map_present}
use gocourier.Api.Client.{as_object, as_delivery_row, as_activity, normalize_summary}
use gocourier.Api.Client.Normal.{IsRow, as_delivery_row-IsRow}

-- What a chain of results returns, each of its links returned.
returned-of :
    {A B : Type 0} (m : Result A) (f : A → Result B) (b : B)
    → (m >>= f) ≡ returned b
    → (a : A) × (m ≡ returned a) × (f a ≡ returned b)
returned-of (returned a) f b h = (a, refl, h)
returned-of (thrown e) f b h = cc

returned-inj : {A : Type 0} (a b : A) → returned a ≡ returned b → a ≡ b
returned-inj a b h = cc

abbrev pub AllItems : (Json → Type 0) → Items → Type 0
AllItems P nil = Unit
AllItems P (cons x xs) = P x × AllItems P xs

module _ (f : Json → Result Object) (P : Json → Type 0)
    (step : (x : Json) (o : Object) → f x ≡ returned o → P (obj o)) where
  map_objects-All : (xs ys : Items) → map_objects f xs ≡ returned ys → AllItems P ys
  unfolding map_objects
  map_objects-All nil ys h = subst (AllItems P) (returned-inj nil ys h) tt
  map_objects-All (cons x xs) ys h =
      let (o, made, rest) = returned-of (f x) _ ys h in
      let (os, mapped, whole) = returned-of (map_objects f xs) _ ys rest in
      subst (AllItems P) (returned-inj (cons (obj o) os) ys whole)
        (step x o made, map_objects-All xs os mapped)

  map_present-All : (v : Option Json) (ys : Items) → map_present f v ≡ returned ys → AllItems P ys
  unfolding map_present
  map_present-All none ys h = subst (AllItems P) (returned-inj nil ys h) tt
  map_present-All (some (arr xs)) ys h = map_objects-All xs ys h
  map_present-All (some _) ys h = cc

-- An object that `asDeliveryRow` made of some value.
abbrev pub IsRowItem : Json → Type 0
IsRowItem j = (d : Json) × (o : Object) × (j ≡ obj o) × IsRow d o

-- An event whose payload is an object.
abbrev pub IsEventItem : Json → Type 0
IsEventItem j = (o : Object) × (p : Object) × (j ≡ obj o) × (get "payload" o ≡ some (obj p))

event_payload :
    (id delivery_id event_type created_at : Option Json) (p : Object)
    → get "payload" (
        object_of (
          ("id", id)
          ∷ ("delivery_id", delivery_id)
          ∷ ("event_type", event_type)
          ∷ ("payload", some (obj p))
          ∷ ("created_at", created_at)
          ∷ []))
      ≡ some (obj p)
unfolding get object_of
event_payload id delivery_id event_type created_at p = ground arith

as_activity-IsEvent : (e : Json) (o : Object) → as_activity e ≡ returned o → IsEventItem (obj o)
unfolding as_activity
as_activity-IsEvent e o h =
    let (payload, _, h) = returned-of (read "payload" (some e)) _ o h in
    let (id, _, h) = returned-of (read "id" (some e)) _ o h in
    let (delivery_id, _, h) = returned-of (read "delivery_id" (some e)) _ o h in
    let (event_type, _, h) = returned-of (read "event_type" (some e)) _ o h in
    let (created_at, _, h) = returned-of (read "created_at" (some e)) _ o h in
    let p = as_object payload or_else end in
    (
      o,
      p,
      refl,
      subst (λ (x : Object). get "payload" x ≡ some (obj p)) (returned-inj _ o h)
          (event_payload id delivery_id event_type created_at p),
    )

abbrev summary_object : Json → Json → Json → Items → Items → Object
summary_object counts outbox due events rows = object_of (
    ("status_counts", some counts)
    ∷ ("outbox_pending", some outbox)
    ∷ ("scheduled_due", some due)
    ∷ ("recent_activity", some (arr events))
    ∷ ("deliveries", some (arr rows))
    ∷ [])

summary_lists :
    (counts outbox due : Json) (events rows : Items)
    → (get "recent_activity" (summary_object counts outbox due events rows) ≡ some (arr events))
      × (get "deliveries" (summary_object counts outbox due events rows) ≡ some (arr rows))
unfolding get object_of
summary_lists counts outbox due events rows = (refl, refl)

-- What `normalizeSummary` returns has two lists: events, each with an object for its payload, and rows,
-- each with the members that `asDeliveryRow` makes up. This holds of whatever the API sends, if nothing
-- is thrown.
pub normalize_summary_lists :
    (parse : String → Option Json) (raw : Json) (o : Object)
    → normalize_summary parse raw ≡ returned o
    → (events : Items) × (rows : Items) × (get "recent_activity" o ≡ some (arr events))
      × (get "deliveries" o ≡ some (arr rows))
      × AllItems IsEventItem events
      × AllItems IsRowItem rows
unfolding normalize_summary
normalize_summary_lists parse raw o h =
    let (counts, _, h) = returned-of (read "status_counts" (some raw)) _ o h in
    let (outbox, _, h) = returned-of (read "outbox_pending" (some raw)) _ o h in
    let (due, _, h) = returned-of (read "scheduled_due" (some raw)) _ o h in
    let (activity, _, h) = returned-of (read "recent_activity" (some raw)) _ o h in
    let (events, mapped, h) = returned-of (map_present as_activity (present activity)) _ o h in
    let (sent, _, h) = returned-of (read "deliveries" (some raw)) _ o h in
    let (rows, made, h) = returned-of (map_present (as_delivery_row parse) (present sent)) _ o h in
    let whole = returned-inj _ o h in
    let lists =
      summary_lists (present counts or_else obj end) (present outbox or_else num 0)
        (present due or_else num 0) events rows in
    (
      events,
      rows,
      subst (λ (x : Object). get "recent_activity" x ≡ some (arr events)) whole lists.0,
      subst (λ (x : Object). get "deliveries" x ≡ some (arr rows)) whole lists.1,
      map_present-All as_activity IsEventItem as_activity-IsEvent (present activity) events mapped,
      map_present-All (as_delivery_row parse) IsRowItem
          (λ d r e. (d, r, refl, as_delivery_row-IsRow parse d r e)) (present sent) rows made,
    )
