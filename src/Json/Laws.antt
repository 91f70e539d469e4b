-- ===== src/Json/Laws.antt =====
-- Laws of `get`, `assign` and `omit`.
use gocourier.Common.{◌≡◌, refl, Option, none, some, String, arith, if◌then◌else◌, str_eq, eq_iff}
use gocourier.Json.Value.{Json, Object, end, field, get, assign, assign?, omit}

-- What is read after a member was set.
pub get-assign :
    (k j : String) (v : Json) (o : Object)
    → get j (assign k v o) ≡ (if str_eq k j then some v else get j o)
unfolding get assign
get-assign k j v end = refl
get-assign k j v (field i w o) =
    ground (arith, eq_iff k j, eq_iff i k, eq_iff i j, get-assign k j v o)

-- Setting a member to what it is changes nothing.
pub assign-get : (k : String) (v : Json) (o : Object) → get k o ≡ some v → assign k v o ≡ o
unfolding get assign
assign-get k v end h = cc
assign-get k v (field i u o) h = ground (arith, assign-get k v o)

-- A member that is not there need not be left out.
pub omit-get : (k : String) (o : Object) → get k o ≡ none → omit k o ≡ o
unfolding get omit
omit-get k end h = refl
omit-get k (field i u o) h = ground (arith, omit-get k o)

-- Setting a member to what is read of it, `undefined` included, changes nothing.
pub assign?-get : (k : String) (o : Object) → assign? k (get k o) o ≡ o
unfolding assign?
assign?-get k o = by_value (get k o) refl
  where
    by_value : (g : Option Json) → get k o ≡ g → assign? k (get k o) o ≡ o
    by_value none e = rw e (omit-get k o e)
    by_value (some v) e = rw e (assign-get k v o e)
